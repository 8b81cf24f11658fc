-- ===== src/Plugin/Lifecycle.antt =====
-- What a start leaves running, and what a stop leaves.
use aimpremote_control.Prelude.{◌≡◌, refl, Bool, true, false, []}
use aimpremote_control.Plugin.{Plugin, Services, initialize, finalize}

abbrev pub idle : Plugin
idle = record { has_core = false; running = [] }

ended :
    (p m d o : Bool)
    → finalize
        (initialize
          (record { player = p; playlist_manager = m; message_dispatcher = d; takes_options = o })
          idle).1
      ≡ idle
unfolding initialize finalize
ended false m d o = refl
ended true false d o = refl
ended true true false o = refl
ended true true true false = refl
ended true true true true = refl

-- Whatever services AIMP has, a start from rest that is followed by a stop ends at rest.
pub finalize-initialize : (v : Services) → finalize (initialize v idle).1 ≡ idle
finalize-initialize v = ended v.player v.playlist_manager v.message_dispatcher v.takes_options
