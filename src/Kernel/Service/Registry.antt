-- ===== src/Kernel/Service/Registry.antt =====
-- What the calls of the service registry do, in terms of the ids that are registered.
use cleon_os_jgz_yes_fork.Base.{
  ◌==◌, if◌then◌else◌, ℕ, ◌+◌, ◌%◌, ◌^◌, ◌≡◌, refl, ap, ◌≢◌, true, none, some, [], ◌∷◌, arith,
}
use cleon_os_jgz_yes_fork.Kernel.Service.{
  ServiceInfo, ServiceState, offline, ready, degraded, revive, Services, find_index, beat, beat_at,
  heartbeat, get,
}

get-beat :
    (ss : Services) (id other tick : ℕ)
    → get (heartbeat ss id tick).1 other ≡ (
        if id == other
        then elim (get ss other) [ none ↦ none | some s ↦ some (beat s tick) ]
        else get ss other)
unfolding get heartbeat find_index beat_at beat
get-beat [] id other tick = ground arith
get-beat (s ∷ ss) id other tick = ground (arith, get-beat ss id other tick)

-- What a heartbeat at a tick makes of the entry of a service, in terms of its fields.
pub record Beaten (tick : ℕ) (s s' : ServiceInfo) : Type 0 where
  pub same_id : s'.id ≡ s.id
  pub same_name : s'.name ≡ s.name
  pub one_more : s'.heartbeat_count ≡ (s.heartbeat_count + 1) % 2 ^ 64
  pub at_tick : s'.last_heartbeat_tick ≡ tick
  pub back : s.state ≡ offline → s'.state ≡ ready
  pub steady : s.state ≢ offline → s'.state ≡ s.state

revive-steady : (st : ServiceState) → st ≢ offline → revive st ≡ st
revive-steady offline h = absurd (h refl)
revive-steady ready h = refl
revive-steady degraded h = refl

beat-Beaten : (s : ServiceInfo) (tick : ℕ) → Beaten tick s (beat s tick)
unfolding beat
beat-Beaten s tick = record {
  same_id = refl;
  same_name = refl;
  one_more = refl;
  at_tick = refl;
  back = λ e. ap revive e;
  steady = revive-steady s.state;
}

heartbeat-found :
    (ss : Services) (id tick : ℕ) (s : ServiceInfo)
    → get ss id ≡ some s
    → (heartbeat ss id tick).0 ≡ true
unfolding get heartbeat find_index
heartbeat-found ss id tick s e = ground (arith, e)

-- A heartbeat of a service that a look-up finds succeeds, and a later look-up of that service shows
-- the same id and name, a count of beats that is one more modulo 2^64, and the tick; its state is
-- ready if it was offline, and else what it was. A look-up of any other id shows what it showed before.
pub get-heartbeat :
    (ss : Services) (id tick : ℕ) (s : ServiceInfo)
    → get ss id ≡ some s
    → ((heartbeat ss id tick).0 ≡ true)
      × ((s' : ServiceInfo) × (get (heartbeat ss id tick).1 id ≡ some s') × Beaten tick s s')
      × ((other : ℕ) → id ≢ other → get (heartbeat ss id tick).1 other ≡ get ss other)
get-heartbeat ss id tick s e = (
  heartbeat-found ss id tick s e,
  (beat s tick, ground (arith, get-beat ss id id tick, e), beat-Beaten s tick),
  λ other ne. ground (arith, get-beat ss id other tick, ne),
)
