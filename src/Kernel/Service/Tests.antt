-- ===== src/Kernel/Service/Tests.antt =====
-- The theorems about the service registry, applied to the services of a start.
use cleon_os_jgz_yes_fork.Kernel.Service.{
  Health, ServiceInfo, ready, init, register, copy_name, find_index, get, heartbeat,
}
use cleon_os_jgz_yes_fork.Kernel.Service.Registry.{Beaten, get-heartbeat}
use cleon_os_jgz_yes_fork.Base.{ℕ, ◌≡◌, refl, ◌≢◌, true, false, some, [], ◌∷◌}

abbrev demo_health : Health
demo_health = record {
  heap_bytes = 1;
  fs_ready = true;
  drivers = 2;
  kelfs = 0;
  shell_ready = false;
}

-- The entry of the file system.
abbrev demo_service : ServiceInfo
demo_service = record {
  id = 3;
  name = b'f' ∷ b'i' ∷ b'l' ∷ b'e' ∷ b's' ∷ b'y' ∷ b's' ∷ b't' ∷ b'e' ∷ b'm' ∷ [];
  state = ready;
  heartbeat_count = 0;
  last_heartbeat_tick = 0;
}

demo_found : get (init demo_health) 3 ≡ some demo_service
unfolding get find_index init register copy_name
demo_found = refl

get-heartbeat_example :
    ((heartbeat (init demo_health) 3 9).0 ≡ true)
    × ((s' : ServiceInfo) × (get (heartbeat (init demo_health) 3 9).1 3 ≡ some s')
        × Beaten 9 demo_service s')
    × ((other : ℕ)
        → 3 ≢ other
        → get (heartbeat (init demo_health) 3 9).1 other ≡ get (init demo_health) other)
get-heartbeat_example = get-heartbeat (init demo_health) 3 9 demo_service demo_found
