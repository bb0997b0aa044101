-- ===== src/Repository/Feeds/Order.antt =====
-- internal/repository/feed.go: the two orders, and what the queries return.
use echo_backend.Base.{arith, IsOrdering}
use echo_backend.Repository.Feeds.{newer, more_popular}

pub newer-IsOrdering : IsOrdering newer
unfolding newer
newer-IsOrdering = record {
  not_before = λ p q h. ground arith;
  between = λ p q r h k. ground arith;
}

pub more_popular-IsOrdering : IsOrdering more_popular
unfolding more_popular
more_popular-IsOrdering = record {
  not_before = λ p q h. ground arith;
  between = λ p q r h k. ground arith;
}
