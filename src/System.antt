-- ===== src/System.antt =====
-- The clock and the generator of UUIDs, and what the repositories fill in with them.
pub mod Laws
use echo_backend.Base.{◌≡◌, ◌==◌, if◌then◌else◌}
use echo_backend.Domain.{Uuid, Time}
use echo_backend.Effect.{M, pure, total}

pub record System (W : Type 0) : Type 0 where
  -- `time.Now()`
  pub now : W → Time × W
  -- `uuid.New()`
  pub new_uuid : W → Uuid × W

module _ {W : Type 0} (sys : System W) where
  -- `if id == uuid.Nil { id = uuid.New() }`
  abbrev pub or_new : Uuid → M W Uuid
  or_new id = if id == 0 then total sys.new_uuid else pure id

  -- `if at.IsZero() { at = time.Now() }`
  abbrev pub or_now : Time → M W Time
  or_now at = if at == 0 then total sys.now else pure at

-- Neither touches what a view shows.
pub record IsSystem {W V : Type 0} (view : W → V) (sys : System W) : Type 0 where
  pub now_reads : (w : W) → view (sys.now w).1 ≡ view w
  pub new_uuid_reads : (w : W) → view (sys.new_uuid w).1 ≡ view w
