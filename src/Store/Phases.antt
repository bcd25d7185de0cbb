-- ===== src/Store/Phases.antt =====
-- Which phases of a call under the locks of internal/store/lock.go wait for another thread.
use mcp_chain.Base.{◌≡◌, refl, Bool, true, false, none}
use mcp_chain.Store.Concurrent.{
  Job, exclusive, shared, Phase, idle, queued, entered, holding, loaded, finished, released,
  has_mutex, blocks,
}

-- The phases whose next step waits for nobody.
abbrev pub moves_freely : Phase → Bool
moves_freely idle = false
moves_freely (queued job env) = false
moves_freely (entered job env) = false
moves_freely (holding job env) = true
moves_freely (loaded job env r) = true
moves_freely (finished job env r) = true
moves_freely (released r) = true

abbrev pub is_entered : Phase → Bool
is_entered idle = false
is_entered (queued job env) = false
is_entered (entered job env) = true
is_entered (holding job env) = false
is_entered (loaded job env r) = false
is_entered (finished job env r) = false
is_entered (released r) = false

abbrev pub is_queued : Phase → Bool
is_queued idle = false
is_queued (queued job env) = true
is_queued (entered job env) = false
is_queued (holding job env) = false
is_queued (loaded job env r) = false
is_queued (finished job env r) = false
is_queued (released r) = false

pub not_blocking : (job : Job) (p : Phase) → moves_freely p ≡ false → blocks job p ≡ false
not_blocking (exclusive fn) idle h = refl
not_blocking (exclusive fn) (queued job env) h = refl
not_blocking (exclusive fn) (entered job env) h = refl
not_blocking (exclusive fn) (holding job env) h = absurd (cc)
not_blocking (exclusive fn) (loaded job env r) h = absurd (cc)
not_blocking (exclusive fn) (finished job env r) h = absurd (cc)
not_blocking (exclusive fn) (released r) h = refl
not_blocking (shared fn) idle h = refl
not_blocking (shared fn) (queued job env) h = refl
not_blocking (shared fn) (entered job env) h = refl
not_blocking (shared fn) (holding job env) h = absurd (cc)
not_blocking (shared fn) (loaded job env r) h = absurd (cc)
not_blocking (shared fn) (finished job env r) h = absurd (cc)
not_blocking (shared fn) (released r) h = refl

pub no_mutex : (p : Phase) → moves_freely p ≡ false → is_entered p ≡ false → has_mutex p ≡ false
no_mutex idle h e = refl
no_mutex (queued job env) h e = refl
no_mutex (entered job env) h e = absurd (cc)
no_mutex (holding job env) h e = absurd (cc)
no_mutex (loaded job env r) h e = absurd (cc)
no_mutex (finished job env r) h e = absurd (cc)
no_mutex (released r) h e = absurd (cc)

pub is_idle :
    (p : Phase) → moves_freely p ≡ false → is_entered p ≡ false → is_queued p ≡ false → p ≡ idle
is_idle idle h e q = refl
is_idle (queued job env) h e q = absurd (cc)
is_idle (entered job env) h e q = absurd (cc)
is_idle (holding job env) h e q = absurd (cc)
is_idle (loaded job env r) h e q = absurd (cc)
is_idle (finished job env r) h e q = absurd (cc)
is_idle (released r) h e q = absurd (cc)

-- The release of the file lock at the end of this call gives no error.
abbrev pub CanRelease : Phase → Type 0
CanRelease idle = Unit
CanRelease (queued job env) = env.unlock_error ≡ none
CanRelease (entered job env) = env.unlock_error ≡ none
CanRelease (holding job env) = env.unlock_error ≡ none
CanRelease (loaded job env r) = env.unlock_error ≡ none
CanRelease (finished job env r) = env.unlock_error ≡ none
CanRelease (released r) = Unit
