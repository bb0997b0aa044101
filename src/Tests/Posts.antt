-- ===== src/Tests/Posts.antt =====
-- The theorems on posts, replies and reactions at concrete rows.
use echo_backend.Base.{ℕ, zero, suc, ◌⊎◌, ◌≡◌, refl, false, none, [], ◌∷◌, inl, inr, arith}
use echo_backend.Base.Int.{pos, negsuc, ◌+ℤ◌}
use echo_backend.Text.{Text, codes, len, trim_space}
use echo_backend.Errors.{ok, err, sentinel, invalid_input}
use echo_backend.Effect.{Ensures}
use echo_backend.Domain.{Post, Reaction, upvote, downvote}
use echo_backend.Database.{Tables}
use echo_backend.Repository.Posts.{reaction_value}
use echo_backend.Repository.Posts.Inserts.{with_post}
use echo_backend.Service.Posts.{create, create_reply, react}
use echo_backend.Service.Posts.Create.{IsContent, create-stored, create-refused}
use echo_backend.Service.Posts.Tally.{tally, IsTallied}
use echo_backend.Service.Posts.Votes.{react-IsTallied, react-unscored}
use echo_backend.Service.Posts.Counts.{IsCounted, create_reply-IsCounted}
use echo_backend.Tests.World.{World, view, database, database-IsDatabase, system, system-IsSystem}

handle : (n : ℕ) (w : World) → (database n).handle_rows_affected w ≡ n
unfolding database
handle n w = refl

abbrev first_post : Post
first_post = record {
  id = 7;
  author_id = 1;
  pseudonym = codes "amber-owl-100";
  content = codes "hello";
  is_hidden = false;
  reply_count = 0;
  score = pos 1;
  created_at = 5;
}

abbrev first_vote : Reaction
first_vote = record { user_id = 2; post_id = 7; kind = upvote; created_at = 6 }

abbrev rows : Tables
rows = record {
  users = [];
  posts = first_post ∷ [];
  replies = [];
  reactions = first_vote ∷ [];
  reports = [];
}

abbrev world : World
world = record { tables = rows; keys = λ _. none; clock = 10; next_id = 100 }

create-stored_example :
    Ensures
      (λ p w'.
        (view w' ≡ with_post p (view world))
        × IsContent (codes "amber-owl-100") (codes " hi ")
        × (p ≡ record {
          id = p.id;
          author_id = 1;
          pseudonym = codes "amber-owl-100";
          content = trim_space (codes " hi ");
          is_hidden = false;
          reply_count = 0;
          score = pos 0;
          created_at = p.created_at;
        }))
      (λ _ w'. view w' ≡ view world)
      (create none (λ _. ok []) (database 1) system 1 (codes "amber-owl-100") (codes " hi ") world)
create-stored_example =
    create-stored (database 1) system view (database-IsDatabase 1) system-IsSystem none (λ _. ok [])
      tt 1 (codes "amber-owl-100") (codes " hi ") world

create_reply-IsCounted_example :
    Ensures
      (λ _ w'. IsCounted (view w'))
      (λ _ w'. IsCounted (view w'))
      (create_reply (database 1) system 7 2 (codes "wild-fox-200") (codes "me too") world)
create_reply-IsCounted_example =
    create_reply-IsCounted (database 1) system view (database-IsDatabase 1) system-IsSystem 7 2
      (codes "wild-fox-200") (codes "me too") world (refl, tt)

-- 141 Cyrillic letters are 282 bytes.
abbrev letters : ℕ → Text
letters zero = []
letters (suc n) = 0x436 ∷ letters n

len-letters : len (trim_space (letters 141)) ≡ 282
unfolding len trim_space
len-letters = refl

create-refused_example :
    (create none (λ _. ok []) (database 1) system 1 (codes "amber-owl-100") (letters 141) world
      ≡ (err (sentinel invalid_input), world))
    × (create_reply (database 1) system 7 1 (codes "amber-owl-100") (letters 141) world
        ≡ (err (sentinel invalid_input), world))
create-refused_example =
    create-refused (database 1) system view (database-IsDatabase 1) system-IsSystem none
      (λ _. ok []) tt 7 1 (codes "amber-owl-100") (letters 141) world
      (inr (inl (rw len-letters (omega arith))))

react-IsTallied_example :
    Ensures
      (λ _ w'. IsTallied (view w'))
      (λ _ w'. IsTallied (view w'))
      (react (database 0) 7 2 downvote world)
unfolding reaction_value ◌+ℤ◌
react-IsTallied_example =
    react-IsTallied (database 0) view (database-IsDatabase 0) 0 7 2 downvote world (handle 0)
      (inr (omega arith)) (omega arith) (refl, tt)

react-unscored_example :
    Ensures
      (λ _ w'.
        ((view w').posts ≡ (view world).posts)
        × (tally 7 (view w').reactions ≡ tally 7 (view world).reactions +ℤ reaction_value upvote)
        × ((reaction_value upvote ≡ pos 1) ⊎ (reaction_value upvote ≡ negsuc 0)))
      (λ _ w'. view w' ≡ view world)
      (react (database 0) 7 3 upvote world)
react-unscored_example =
    react-unscored (database 0) view (database-IsDatabase 0) 7 3 upvote world (handle 0) refl
