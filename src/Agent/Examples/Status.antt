-- ===== src/Agent/Examples/Status.antt =====
-- The theorems about the state of the interfaces, the health RPC and the schedules of a client.
use keelos.Prelude.{
  ℕ, ◌+◌, ◌*◌, ◌≤◌, List, ◌++◌, length, ◌≡◌, refl, arith, String, true, false, none, some, [], ◌∷◌,
  ok, err, str_eq,
}
use keelos.Agent.Network.Interfaces.{Device, parse_ipv6_address_line}
use keelos.Prelude.Dict.{put}
use keelos.Agent.Health.{HealthCheckerConfig, pass}
use keelos.Agent.Health.Checks.{Probe, network_check}
use keelos.Agent.Status.{internal}
use keelos.Agent.Scheduler
use keelos.Agent.Scheduler.{
  UpdateSchedule, UpdateScheduler, new_schedule, get_due_schedules, is_within_maintenance_window,
}
use keelos.Agent.Scheduler.Rpc.{
  Times, ScheduleUpdateRequest, ScheduleUpdateResponse, request_of, parse_scheduled_at,
  schedule_rpc,
}
use keelos.Agent.Scheduler.Durable.{Op}
use keelos.Agent.Executor.{World, Event, step, call, asleep, queue, executing, tick, history}
use keelos.Agent.Executor.Requests.{steps, requested_has_turn}
use keelos.Agent.Examples.Machine.{machine, exec}

abbrev cut : String
cut = "    inet6 fe80::1/64 scope"

-- A full line is read, and the cut one panics.
whole_line :
    parse_ipv6_address_line "    inet6 2001:db8::1/64 scope global dynamic"
    ≡ some (
        some (record {
          address = "2001:db8::1";
          prefix_len = 64;
          scope = "global";
          flags = "dynamic" ∷ [];
        }))
unfolding parse_ipv6_address_line
whole_line = refl

cut_line : parse_ipv6_address_line cut ≡ none
unfolding parse_ipv6_address_line
cut_line = refl

abbrev device : Device
device = record {
  name = "eth0";
  operstate = some "up\n";
  address = some "52:54:00:12:34:56\n";
  mtu = some "1500\n";
  ipv4_output = none;
  ipv6_output = some "    inet6 fe80::1/64 scope\n";
  rx_bytes = some "10\n";
  tx_bytes = none;
  rx_packets = none;
  tx_packets = none;
  rx_errors = none;
  tx_errors = none;
}

abbrev config : HealthCheckerConfig
config = record { timeout_secs = 300; retry_interval_secs = 10; max_retries = 30 }

abbrev probe : Probe
probe = record {
  uptime = ok "350735.47 234388.90\n";
  over_ten = λ s. str_eq s "350735.47";
  net_dev = ok "Inter-|   Receive\n face |bytes\n    lo: 1\n  eth0: 9\n";
  connect = λ port. err "refused";
  pgrep = λ s. ok false;
}

net : network_check probe ≡ some pass
unfolding network_check
net = refl

abbrev times : Times
times = record { parse = λ s. ok 100; print = λ at. "2024-01-01T00:00:00+00:00" }

abbrev codec : Scheduler.Codec
codec = record { to_string = λ m. ok "{}"; from_str = λ s. ok [] }

abbrev request : ScheduleUpdateRequest
request = record {
  source_url = "http://os/image";
  expected_sha256 = "AB12";
  scheduled_at = "2024-01-01T00:00:00Z";
  maintenance_window_secs = 0;
  enable_auto_rollback = true;
  health_check_timeout_secs = 0;
  pre_update_hook = "";
  post_update_hook = "";
  is_delta = false;
  fallback_to_full = false;
  full_image_url = "";
}

abbrev empty : UpdateScheduler
empty = record { schedules = []; file = none }

abbrev full_disk : Scheduler.Env
full_disk = record { now = 50; write_fault = some ("No space left on device", none) }

abbrev good_disk : Scheduler.Env
good_disk = record { now = 50; write_fault = none }

-- The client is told that the update was not scheduled.
refused :
    (schedule_rpc times codec request "s1" full_disk empty).1
    ≡ err (record {
      code = internal;
      message = "Failed to schedule update: Failed to write schedules: No space left on device";
    })
unfolding schedule_rpc
refused = refl

read_time : parse_scheduled_at times request.scheduled_at ≡ ok (some 100)
unfolding parse_scheduled_at
read_time = refl

-- The executor is asleep, and a client asks to cancel what it was told was not scheduled.
abbrev asleep_world : World
asleep_world = record { scheduler = empty; machine = machine; phase = asleep }

abbrev clock : ℕ → Scheduler.Env
clock t = record { now = t; write_fault = none }

abbrev events : List (Event codec)
events =
    call (Op.cancel "s1") (clock 110)
    ∷ step exec (clock 120)
    ∷ step exec (clock 121)
    ∷ step exec (clock 122)
    ∷ []

enough :
    1 + 2 * length (get_due_schedules 100 (schedule_rpc times codec request "s1" full_disk empty).0)
    ≤ steps codec events
unfolding get_due_schedules schedule_rpc put
enough = omega arith

open_window :
    is_within_maintenance_window 120 (new_schedule (request_of times request (some 100)) "s1" 50)
    ≡ true
unfolding is_within_maintenance_window new_schedule
open_window = refl

requested_has_turn_example :
    let s = new_schedule (request_of times request (some 100)) "s1" 50 in
    let asked = record asleep_world {
      scheduler = (schedule_rpc times codec request "s1" full_disk empty).0;
    } in
    (before : List (Event codec)) × (after : List (Event codec)) × (events ≡ before ++ after)
    × ((rest : List UpdateSchedule) × ((history codec (step exec (clock 100) ∷ before) asked).phase
          ≡ queue (s ∷ rest))
        × ((tick codec exec
              (clock 120)
              (history codec (step exec (clock 100) ∷ before) asked)).phase
            ≡ executing s rest))
requested_has_turn_example =
    requested_has_turn codec times request "s1" full_disk (clock 100) (clock 120) exec exec 100
      events asleep_world read_time (omega arith) refl enough open_window

abbrev answer : ScheduleUpdateResponse
answer = record {
  schedule_id = "s1";
  status = "pending";
  scheduled_at = "2024-01-01T00:00:00+00:00";
}

promised : (schedule_rpc times codec request "s1" good_disk empty).1 ≡ ok answer
unfolding schedule_rpc
promised = refl
