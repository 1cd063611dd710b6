-- ===== src/Tests/Launches.antt =====
-- The theorem on the ends of the process, applied to a concrete launch, and launches that fail.
use service_jobs.Prelude.{◌≡◌, refl, none, some}
use service_jobs.Prelude.Int.{pos}
use service_jobs.Errors.{GoError, ok, foreign}
use service_jobs.Reaper.{reaper_interval}
use service_jobs.Config.{Settings, settings, raw_of, get_env}
use service_jobs.Config.App.{app_preset_default}
use service_jobs.Server.Launch.{Platform, Launched, launch, panicked, returned}
use service_jobs.Server.Endings.{Ends, launch-Ends}
use service_jobs.Tests.Settings.{a_library, own}
use service_jobs.Tests.Runs.{
  a_process, one_held, events, held_one-IsWellFormed, events-AllMeetSteps,
}

abbrev pub a_platform : Platform
a_platform = record {
  parse_duration = λ s. ok (pos 2000000000);
  init_otel = λ o. none;
  new_context = λ c. none;
  listen = λ address. none;
  show_int = λ n. "7";
  show_duration = λ n. "2s";
  show_error = λ e. "failed";
  serve_failed = none;
}

abbrev taken : GoError
taken = foreign "address already in use"

abbrev pub port_taken : Platform
port_taken = record a_platform { listen = λ address. some taken }

abbrev own_settings : Settings
own_settings = settings a_library (raw_of own)

-- A launch that runs to its end, and one whose port is taken.
own-returned : (launch a_library a_platform a_process own events one_held).exit ≡ returned
unfolding launch settings raw_of get_env
own-returned = refl

taken-panicked : (launch a_library port_taken a_process own events one_held).exit ≡ panicked taken
unfolding launch settings raw_of get_env
taken-panicked = refl

abbrev a_launch : Launched
a_launch = launch a_library a_platform a_process own events one_held

launch-Ends_example :
    Ends a_platform
      (app_preset_default a_library own_settings)
      (reaper_interval a_platform.parse_duration own_settings.raw_reaper_interval)
      one_held
      a_launch
      a_launch.exit
launch-Ends_example =
    launch-Ends a_library a_platform a_process own events one_held held_one-IsWellFormed
      events-AllMeetSteps
