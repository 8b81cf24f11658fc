-- ===== src/Player/Tests.antt =====
-- The controls over a player with one playlist of three items, whose state is the calls made, newest first.
use aimpremote_control.Prelude.{◌≡◌, refl, true, false, some, none, List, [], ◌∷◌}
use aimpremote_control.Prelude.Text.{Bytes, bytes}
use aimpremote_control.Prelude.Int.{ℤ, pos}
use aimpremote_control.Rpc.{Json, object, integer, no_fields}
use aimpremote_control.Rpc
use aimpremote_control.IdManager.RoundTrip.{empty, empty-IsValid}
use aimpremote_control.Events.{initial}
use aimpremote_control.Aimp.{Aimp, focus_target, remainder, plus}
use aimpremote_control.Listing.Laws.{AfterGiven}
use aimpremote_control.Listing.Kept.{Keeps}
use aimpremote_control.Player.{
  Player, Playback, playing, stopped, current_item, current_item_of, build_state,
}
use aimpremote_control.Player.Controls.{
  step_playback, move_focus, play, pause_playing, stop_playing, play_next, play_previous, toggle,
}
use aimpremote_control.Player.Laws.{controls-Keeps}

data Call : Type 0 where
  plays : ℤ → Call
  pauses resumes halts next_track previous_track : Call
  focuses_on : ℤ → Call

abbrev three : Aimp (List Call) Bytes ℤ
three = record {
  loaded_playlist_by_id = λ id s. some id;
  item_count = λ p s. pos 3;
  get_item = λ p i s. some i;
  index_of = λ i s. i;
  delete_item = λ p i s. (pos 0, s);
  delete_physically = λ p chosen s. (pos 0, s);
  queue_add = λ i b s. (pos 0, s);
  queue_delete = λ i s. (pos 0, s);
  rename = λ p n s. (pos 0, s);
  add_list = λ p uris s. (pos 0, s);
  audio_formats = λ s. [];
}

-- A player in a state of playback, at the last item.
abbrev at_last : Playback → Player (List Call) Bytes ℤ
at_last playback = record {
  has_player = λ s. true;
  playback = λ s. playback;
  volume = λ s. pos 50;
  is_mute = λ s. false;
  mode = λ m s. none;
  player_item = λ s. some (pos 2);
  has_manager = λ s. true;
  playing_playlist = λ s. none;
  active_playlist = λ s. none;
  focused_item = λ p s. none;
  cursor_item = λ p s. none;
  playlist_of = λ i s. some (bytes "A");
  id_of = λ p s. p;
  duration = λ s. (pos 5, 1);
  position = λ s. (pos 3, 1);
  file_name_is_url = λ i s. none;
  play_item = λ i s. plays i ∷ s;
  pause = λ s. pauses ∷ s;
  resume = λ s. resumes ∷ s;
  stop = λ s. halts ∷ s;
  go_to_next = λ s. next_track ∷ s;
  go_to_previous = λ s. previous_track ∷ s;
  has_properties = λ p s. true;
  set_focus = λ p i s. (true, focuses_on i ∷ s);
}

-- The focus goes round; a player that plays goes on.
goes_round :
    step_playback three (at_last stopped) (pos 1) (λ s. next_track ∷ s) []
    ≡ some (true, focuses_on (pos 0) ∷ [])
unfolding step_playback move_focus current_item current_item_of focus_target remainder plus
goes_round = refl

goes_on :
    step_playback three (at_last playing) (pos 1) (λ s. next_track ∷ s) []
    ≡ some (false, next_track ∷ [])
unfolding step_playback
goes_on = refl

pauses_playing : toggle three (at_last playing) [] ≡ pauses ∷ []
unfolding toggle
pauses_playing = refl

starts_current : toggle three (at_last stopped) [] ≡ plays (pos 2) ∷ []
unfolding toggle current_item current_item_of
starts_current = refl

abbrev request : Json
request = object (Rpc.field (bytes "track_id") (integer (pos 7)) no_fields)

controls-Keeps_example :
    AfterGiven (Keeps empty) (build_state three (at_last playing) [] empty)
    × AfterGiven (Keeps empty) (play three (at_last playing) request [] empty).0
    × AfterGiven (Keeps empty) (pause_playing three (at_last playing) [] empty).0
    × AfterGiven (Keeps empty) (stop_playing three (at_last playing) [] empty).0
    × AfterGiven (Keeps empty) (play_next three (at_last playing) [] empty initial).0
    × AfterGiven (Keeps empty) (play_previous three (at_last playing) [] empty initial).0
controls-Keeps_example =
    controls-Keeps three (at_last playing) request [] empty initial empty-IsValid
