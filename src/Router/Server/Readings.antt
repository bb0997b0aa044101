-- ===== src/Router/Server/Readings.antt =====
-- The handlers that ask for no session: what they leave of the rows.
use echo_backend.Base.{
  suc, ltb, IsOrdering, ◌==◌, ℕ, ◌≡◌, ◌∙◌, refl, Bool, Option, some, List, inl, inr, arith,
}
use echo_backend.Text.{Text}
use echo_backend.Errors.{Result, ok, err}
use echo_backend.Effect.{M}
use echo_backend.Effect.Rules.{
  bind, returned, mapped, leaves, left_with, Ensures-mono, from_result_lem,
}
use echo_backend.Crypto.{Claims}
use echo_backend.Database.{Tables}
use echo_backend.Domain.{User, Reply}
use echo_backend.System.{IsSystem}
use echo_backend.SortedSets.{Command}
use echo_backend.Repository.Posts.Rows.{get_by_id-Gets}
use echo_backend.Repository.Posts
use echo_backend.Repository.Feeds
use echo_backend.Repository.Feeds.{is_before, newer}
use echo_backend.Repository.Feeds.Order.{newer-IsOrdering}
use echo_backend.Service.Posts.Create.{LeavesRows}
use echo_backend.Service.Posts.{get_by_id, list_replies}
use echo_backend.Service.Auth.Session.{IsAuth}
use echo_backend.Service.Auth.Register.{register-session}
use echo_backend.Service.Auth.Refresh.{HalfRotated, refresh-rotates}
use echo_backend.Service.Feeds.{latest, parse_cursor}
use echo_backend.Service.Feeds.Pages.{clamp_limit_lem}
use echo_backend.Service.Feeds.Cache
use echo_backend.Handler.Errors.{
  Response, success, write_domain_error, Binding, bound, unbound, respond, with_request,
}
use echo_backend.Handler.Request.{as_invalid, page_limit}
use echo_backend.Handler.Posts as PostHandler
use echo_backend.Handler.Sessions as SessionHandler
use echo_backend.Handler.Feeds as FeedHandler
use echo_backend.Handler.Health.{check}
use echo_backend.Hub.Client.{Client, new_client, start}
use echo_backend.Handler.Websocket.{feed, upgraded}
use echo_backend.Router.{post_service}
use echo_backend.Router.Server.{Server, posts, session_service, feed_service}

-- What the server relies on: the laws of the services, and that the other calls of other packages
-- leave the rows alone.
pub record IsServer {W C : Type 0} (s : Server W C) (view : W → Tables)
    (keys : W → Text → Option Text) (is_live : Claims → W → Bool) : Type 1 where
  pub auth : IsAuth s.auth view keys is_live
  pub exec_reads : (cs : List Command) (w : W) → view (s.store.exec cs w).1 ≡ view w
  -- Nor do the pipelines, the clock and the generator of UUIDs touch the keys of sessions.
  pub exec_keeps : (cs : List Command) (w : W) → keys (s.store.exec cs w).1 ≡ keys w
  pub system_keeps : IsSystem keys s.auth.sys
  pub broadcast_reads : LeavesRows view (some s.broadcast)
  pub open_pool_reads : (w : W) → view (s.open_pool w).1 ≡ view w
  pub ping_db_reads : (w : W) → view (s.ping_db w).1 ≡ view w
  pub ping_redis_reads : (w : W) → view (s.ping_redis w).1 ≡ view w
  pub upgrade_reads : (w : W) → view (s.upgrade w).1 ≡ view w
  pub hub_register_reads : (client : Client C) (w : W) → view (s.hub_register client w) ≡ view w
  pub go_write_reads : (client : Client C) (w : W) → view (s.go_write client w) ≡ view w
  pub go_read_reads : (client : Client C) (w : W) → view (s.go_read client w) ≡ view w

-- What a call leaves is what its response leaves.
pub respond_left :
    {W A B : Type 0} (P : W → Type 0) (status : ℕ) (body : A → B) (m : M W A) (w : W)
    → P (m w).1
    → P (respond status body m w).1
unfolding respond
respond_left {W} {A} {B} P status body m w p = go (m w) p
  where
    go :
        (x : Result A × W)
        → P x.1
        → P
            (let (r, w') = x in
              elim r as (λ _. Response B × W) [
                | ok a ↦ (success status (body a), w')
                | err e ↦ (write_domain_error e, w')
              ]).1
    go (ok a, w') q = q
    go (err e, w') q = q

pub with_request_left :
    {W A B : Type 0} (P : W → Type 0) (binding : Binding A) (handle : A → W → Response B × W)
    (w : W)
    → P w
    → ((req : A) → P (handle req w).1)
    → P (with_request binding handle w).1
unfolding with_request
with_request_left P (bound req) handle w p h = h req
with_request_left P (unbound errors) handle w p h = p

module _ {W C : Type 0} (s : Server W C) (view : W → Tables) (keys : W → Text → Option Text)
    (is_live : Claims → W → Bool) (h : IsServer s view keys is_live) (w : W) where
  abbrev Same : W → Type 0
  Same w' = view w' ≡ view w

  pub check_reads : Same (check s.open_pool s.ping_db s.ping_redis w).1
  unfolding check
  check_reads =
      h.ping_redis_reads _
      ∙ left_with Same _ (
          bind _ _ (λ _ w'. Same w') _ _ w (leaves Same _ (h.open_pool_reads w))
            λ _ w₁ same. leaves Same _ (h.ping_db_reads w₁ ∙ same))

  pub feed_reads : Same (feed s.upgrade s.hub_register s.go_write s.go_read w).1
  unfolding feed upgraded new_client start
  feed_reads = go (s.upgrade w) (h.upgrade_reads w)
    where
      go :
          (x : Result C × W)
          → Same x.1
          → Same (upgraded s.upgrade s.hub_register s.go_write s.go_read x).1
      go (ok conn, w') same =
          h.go_read_reads _ _ ∙ h.go_write_reads _ _ ∙ h.hub_register_reads _ _ ∙ same
      go (err e, w') same = same

  pub get_by_id_reads :
      (binding : Binding PostHandler.PostIdRequest)
      → Same (PostHandler.get_by_id (posts s) s.auth.crypto.uuid_parse binding w).1
  unfolding PostHandler.get_by_id post_service get_by_id
  get_by_id_reads binding = with_request_left Same binding _ w refl λ req.
      respond_left Same 200 _ _ w (
        left_with Same _ (
          bind _ _ (λ _ w'. Same w') _ _ w
            (mapped _ _ as_invalid _ w (
              Ensures-mono _ _ _ _ _ (from_result_lem view (s.auth.crypto.uuid_parse req.id) w)
                (λ _ _ q. q.1) (λ _ _ q. q)))
            λ post_id w₁ same.
              Ensures-mono _ _ _ _ _ (get_by_id-Gets s.auth.db view h.auth.database post_id w₁)
                (λ _ _ q. q.2 ∙ same) (λ _ _ q. q.1 ∙ same)))

  oldest-IsOrdering : IsOrdering (λ (r s : Reply). ltb r.created_at s.created_at)
  oldest-IsOrdering = record {
    not_before = λ r s e. ground arith;
    between = λ r s t e f. ground arith;
  }

  pub list_replies_reads :
      (binding : Binding PostHandler.ListRepliesRequest)
      → Same (PostHandler.list_replies (posts s) s.auth.crypto.uuid_parse binding w).1
  unfolding PostHandler.list_replies post_service list_replies Posts.list_replies
  list_replies_reads binding = with_request_left Same binding _ w refl λ req.
      respond_left Same 200 _ _ w (
        left_with Same _ (
          bind _ _ (λ _ w'. Same w') _ _ w
            (mapped _ _ as_invalid _ w (
              Ensures-mono _ _ _ _ _ (from_result_lem view (s.auth.crypto.uuid_parse req.post_id) w)
                (λ _ _ q. q.1) (λ _ _ q. q)))
            λ post_id w₁ same.
              bind _ _ (λ _ w'. Same w') _ _ w₁
                (Ensures-mono _ _ _ _ _ (get_by_id-Gets s.auth.db view h.auth.database post_id w₁)
                  (λ _ _ q. q.2 ∙ same) (λ _ _ q. q.1 ∙ same))
                λ _ w₂ same₂.
                  let (n, clamped, small) = clamp_limit_lem (page_limit req.limit) in
                  rw clamped (
                    Ensures-mono _ _ _ _ _
                      (h.auth.database.replies_table.find_lem (λ r. r.post_id == post_id)
                        (λ r q. ltb r.created_at q.created_at) (suc n) 0 w₂ oldest-IsOrdering
                        (omega arith))
                      (λ _ _ q. q.1 ∙ same₂) (λ _ _ q. q ∙ same₂))))

  pub latest_reads :
      (binding : Binding FeedHandler.LatestFeedRequest)
      → Same (FeedHandler.latest (feed_service s) s.format_cursor s.parse_cursor binding w).1
  unfolding FeedHandler.latest feed_service latest Feeds.latest
  latest_reads binding = with_request_left Same binding _ w refl λ req.
      respond_left Same 200 _ _ w (
        left_with Same _ (
          bind _ _ (λ _ w'. Same w') _ _ w
            (mapped _ _ as_invalid _ w (
              Ensures-mono _ _ _ _ _
                (from_result_lem view (parse_cursor s.parse_cursor req.cursor) w) (λ _ _ q. q.1)
                (λ _ _ q. q)))
            λ cursor w₁ same.
              let (n, clamped, small) = clamp_limit_lem (page_limit req.limit) in
              rw clamped (
                bind _ _ (λ _ w'. Same w') _ _ w₁
                  (Ensures-mono _ _ _ _ _
                    (h.auth.database.posts_table.find_lem (is_before cursor) newer (suc n) 0 w₁
                      newer-IsOrdering (omega arith))
                    (λ _ _ q. q.1 ∙ same) (λ _ _ q. q ∙ same))
                  λ page w₂ same₂. returned _ _ _ _ same₂)))

  pub trending_reads :
      (binding : Binding FeedHandler.TrendingFeedRequest)
      → Same (FeedHandler.trending (feed_service s) binding w).1
  unfolding FeedHandler.trending feed_service
  trending_reads binding = with_request_left Same binding _ w refl λ req.
      respond_left Same 200 _ _ w (
        Cache.trending_reads s.auth.db view h.auth.database s.auth.redis keys h.auth.sessions
          s.marshal_posts s.unmarshal_posts (page_limit req.limit) w)

  -- At most the users change.
  abbrev pub IsUsersOnly : W → Type 0
  IsUsersOnly w' = (users : List User) × (view w' ≡ record (view w) { users = users })

  unchanged : (w' : W) → Same w' → IsUsersOnly w'
  unchanged w' same = ((view w).users, same)

  pub register_users : IsUsersOnly (SessionHandler.register (session_service s) w).1
  unfolding SessionHandler.register session_service
  register_users = respond_left IsUsersOnly 201 _ _ w (
      left_with IsUsersOnly _ (
        Ensures-mono _ _ _ _ _ (register-session s.auth view keys is_live h.auth w)
          (λ _ _ q. (_, q.6))
          (λ _ w' q. elim q [ inl same ↦ unchanged w' same | inr left ↦ (_, left.2) ])))

  half_rotated : (user : User) (w' : W) → HalfRotated view user w w' → IsUsersOnly w'
  half_rotated user w' (inl same) = unchanged w' same
  half_rotated user w' (inr (hash, at, left)) = (_, left)

  pub refresh_users :
      (binding : Binding SessionHandler.RefreshRequest)
      → IsUsersOnly (SessionHandler.refresh (session_service s) binding w).1
  unfolding SessionHandler.refresh session_service
  refresh_users binding = with_request_left IsUsersOnly binding _ w (unchanged w refl) λ req.
      respond_left IsUsersOnly 200 _ _ w (
        left_with IsUsersOnly _ (
          Ensures-mono _ _ _ _ _ (refresh-rotates s.auth view keys is_live h.auth req.token w)
            (λ _ _ q. (_, q.2.4))
            (λ _ w' q. elim q [
              | inl same ↦ unchanged w' same
              | inr (user, left) ↦ half_rotated user w' left
            ])))
