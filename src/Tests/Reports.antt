-- ===== src/Tests/Reports.antt =====
-- The theorems on reports at concrete rows.
use echo_backend.Base.{◌≡◌, ◌⊎◌, true, false, none, [], ◌∷◌, Elem, arith}
use echo_backend.Base.Int.{pos}
use echo_backend.Text.{codes, trim_space}
use echo_backend.Effect.{Ensures}
use echo_backend.Domain.{Time, Post, Report, ban, is_open}
use echo_backend.Repository.Reports.Rows.{with_resolved}
use echo_backend.Service.Reports.{act, is_action, is_ban}
use echo_backend.Service.Reports.Create.{filed}
use echo_backend.Service.Reports.Act.{hidden_by, IsEnded, act-resolves, act-closed}
use echo_backend.Tests.World.{
  World, view, live_keys, database, database-IsDatabase, system, system-IsSystem,
}
use echo_backend.Tests.Ciphers.{redis, redis-IsRedis}

abbrev reported_post : Post
reported_post = record {
  id = 7;
  author_id = 1;
  pseudonym = codes "amber-owl-100";
  content = codes "hello";
  is_hidden = false;
  reply_count = 0;
  score = pos 0;
  created_at = 5;
}

abbrev world : World
world = record {
  tables = record {
    users = [];
    posts = reported_post ∷ [];
    replies = [];
    reactions = [];
    reports = filed 40 6 7 2 (codes "spam") ∷ [];
  };
  keys = λ _. none;
  clock = 10;
  next_id = 100;
}

act-resolves_example :
    Ensures
      (λ _ w'.
        (is_action ban ≡ true)
        × ((r : Report) × Elem r (view world).reports
            × (r.id ≡ 40)
            × (is_open r.status ≡ true)
            × ((now : Time) × (view w'
                  ≡ with_resolved 40 9 ban
                      (trim_space (codes "spammer"))
                      now
                      (hidden_by ban r.post_id (view world))))
            × (is_ban ban ≡ true
                → (p : Post) × Elem p (view world).posts
                  × (p.id ≡ r.post_id)
                  × IsEnded redis live_keys (λ u. u ∷ []) p.author_id w')))
      (λ _ w'.
        (view w' ≡ view world)
        ⊎ ((r : Report) × Elem r (view world).reports
            × (r.id ≡ 40)
            × (view w' ≡ hidden_by ban r.post_id (view world))))
      (act (database 1) system redis (λ u. u ∷ []) 9 40 ban (codes "spammer") world)
act-resolves_example =
    act-resolves (database 1) system view (database-IsDatabase 1) system-IsSystem redis live_keys
      redis-IsRedis (λ u. u ∷ []) 9 40 ban (codes "spammer") world

act-closed_example :
    Ensures
      (λ _ _. ⊥)
      (λ _ w'. view w' ≡ view world)
      (act (database 1) system redis (λ u. u ∷ []) 9 41 ban (codes "spammer") world)
act-closed_example =
    act-closed (database 1) system view (database-IsDatabase 1) system-IsSystem redis live_keys
      redis-IsRedis (λ u. u ∷ []) 9 41 ban (codes "spammer") world (λ e. absurd (omega arith), tt)
