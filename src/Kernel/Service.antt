-- ===== src/Kernel/Service.antt =====
-- The registry of kernel services, clks/kernel/service.c: the services in the order in which they
-- were registered. What the other components report at start is an argument of `init`.
pub mod Registry
mod Tests
use cleon_os_jgz_yes_fork.Base.{
  ltb, leb, ◌==◌, if◌then◌else◌, length, get_elem?, add64, copy_bounded, ℕ, zero, suc, ◌+◌, ◌-◌,
  Bool, true, false, Option, none, some, List, [], ◌∷◌, ◌++◌,
}

-- CLKS_SERVICE_MAX
abbrev pub max_services : ℕ
max_services = 8

-- CLKS_SERVICE_NAME_MAX
abbrev pub service_name_max : ℕ
service_name_max = 24

-- `enum clks_service_state`
pub data ServiceState : Type 0 where
  offline ready degraded : ServiceState

-- `struct clks_service_info`
pub record ServiceInfo : Type 0 where
  pub id : ℕ
  pub name : List ℕ
  pub state : ServiceState
  pub heartbeat_count : ℕ
  pub last_heartbeat_tick : ℕ

-- The part of `clks_services` below `clks_service_used`.
abbrev pub Services : Type 0
Services = List ServiceInfo

-- `clks_service_copy_name`
pub copy_name : ℕ → List ℕ → List ℕ
unfolding copy_bounded
copy_name size src = if size == 0 then [] else copy_bounded (size - 1) src

-- The loop of `clks_service_find_index`; `none` is -1.
pub find_index : Services → ℕ → Option ℕ
find_index [] wanted = none
find_index (s ∷ ss) wanted =
    if s.id == wanted
    then some 0
    else elim (find_index ss wanted) [ none ↦ none | some i ↦ some (suc i) ]

-- `clks_service_register`
pub register : Services → ℕ → List ℕ → ServiceState → Bool × Services
register ss id name state = if leb max_services (length ss) then (false, ss) else (
  true,
  ss
      ++ record {
        id = id;
        name = copy_name service_name_max name;
        state = state;
        heartbeat_count = 0;
        last_heartbeat_tick = 0;
      }
        ∷ [],
)

-- What `clks_service_init` asks of the heap, the file system, the drivers, the kernel executables
-- and the user shell.
pub record Health : Type 0 where
  pub heap_bytes : ℕ
  pub fs_ready : Bool
  pub drivers : ℕ
  pub kelfs : ℕ
  pub shell_ready : Bool

abbrev pub ready_if : Bool → ServiceState
ready_if b = if b then ready else degraded

-- `clks_service_init`, the log lines aside.
pub init : Health → Services
unfolding register
init h =
    let s1 = (register [] 1 (b'l' ∷ b'o' ∷ b'g' ∷ []) ready).1 in
    let s2 =
      (register s1 2 (b'm' ∷ b'e' ∷ b'm' ∷ b'o' ∷ b'r' ∷ b'y' ∷ [])
        (ready_if (ltb 0 h.heap_bytes))).1 in
    let s3 =
      (register s2 3 (b'f' ∷ b'i' ∷ b'l' ∷ b'e' ∷ b's' ∷ b'y' ∷ b's' ∷ b't' ∷ b'e' ∷ b'm' ∷ [])
        (ready_if h.fs_ready)).1 in
    let s4 =
      (register s3 4 (b'd' ∷ b'r' ∷ b'i' ∷ b'v' ∷ b'e' ∷ b'r' ∷ [])
        (ready_if (ltb 0 h.drivers))).1 in
    let s5 =
      (register s4 5 (b's' ∷ b'c' ∷ b'h' ∷ b'e' ∷ b'd' ∷ b'u' ∷ b'l' ∷ b'e' ∷ b'r' ∷ []) ready).1 in
    let s6 = (register s5 6 (b'k' ∷ b'e' ∷ b'l' ∷ b'f' ∷ []) (ready_if (ltb 0 h.kelfs))).1 in
    (register s6 7 (b'u' ∷ b's' ∷ b'e' ∷ b'r' ∷ b'l' ∷ b'a' ∷ b'n' ∷ b'd' ∷ [])
      (ready_if h.shell_ready)).1

abbrev pub revive : ServiceState → ServiceState
revive offline = ready
revive ready = ready
revive degraded = degraded

-- The writes of `clks_service_heartbeat` to the entry.
pub beat : ServiceInfo → ℕ → ServiceInfo
beat s tick = record s {
  heartbeat_count = add64 s.heartbeat_count 1;
  last_heartbeat_tick = tick;
  state = revive s.state;
}

pub beat_at : Services → ℕ → ℕ → Services
beat_at [] i tick = []
beat_at (s ∷ ss) zero tick = beat s tick ∷ ss
beat_at (s ∷ ss) (suc i) tick = s ∷ beat_at ss i tick

-- `clks_service_heartbeat`
pub heartbeat : Services → ℕ → ℕ → Bool × Services
unfolding beat_at
heartbeat ss wanted tick = elim (find_index ss wanted) [
  | none ↦ (false, ss)
  | some i ↦ (true, beat_at ss i tick)
]

-- `clks_service_count`
pub count : Services → ℕ
count ss = length ss

abbrev pub is_ready_state : ServiceState → Bool
is_ready_state ready = true
is_ready_state _ = false

-- `clks_service_ready_count`
pub ready_count : Services → ℕ
ready_count [] = 0
ready_count (s ∷ ss) = (if is_ready_state s.state then 1 else 0) + ready_count ss

-- `clks_service_get` into a place that is not NULL.
pub get : Services → ℕ → Option ServiceInfo
get ss wanted = elim (find_index ss wanted) [ none ↦ none | some i ↦ get_elem? ss i ]
