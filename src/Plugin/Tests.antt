-- ===== src/Plugin/Tests.antt =====
-- A start that AIMP's options dialog refuses.
use aimpremote_control.Prelude.{◌≡◌, refl, true, false, []}
use aimpremote_control.Plugin.{Services, initialize, finalize}
use aimpremote_control.Plugin.Lifecycle.{idle, finalize-initialize}

abbrev sample : Services
sample = record {
  player = true;
  playlist_manager = true;
  message_dispatcher = true;
  takes_options = false;
}

finalize-initialize_run : finalize (initialize sample idle).1 ≡ idle
finalize-initialize_run = finalize-initialize sample

-- It leaves nothing running.
refused_options : (initialize sample idle).1.running ≡ []
unfolding initialize
refused_options = refl
