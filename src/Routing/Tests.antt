-- ===== src/Routing/Tests.antt =====
-- Requests at the door of the server.
use aimpremote_control.Prelude.{
  ◌≡◌, refl, ◌⊎◌, true, false, some, none, [], ◌++◌, if◌then◌else◌, ◌==◌,
}
use aimpremote_control.Prelude.Text.{Bytes, bytes, bytes_eq, bytes_beq}
use aimpremote_control.Prelude.Dict.{Dict}
use aimpremote_control.Rpc.{Json, null, text, object, no_fields, Fields, find_field}
use aimpremote_control.Rpc
use aimpremote_control.Digest.{AuthSettings}
use aimpremote_control.Digest.Signed.{IsLetIn}
use aimpremote_control.Routing.{
  Incoming, Files, pre_route, is_static_file_request, begins_with, normalize_params,
}
use aimpremote_control.Routing.Admitted.{ReadsWebRoot, IsUpload, IsSmall, pre_route-Guards}
use aimpremote_control.Routing.Normal.{normal, normalize_params_lem}

abbrev same : Bytes → Bytes
same s = s

abbrev no_header : Bytes → Dict Bytes Bytes
no_header h = []

abbrev root_of_one : Files
root_of_one = record {
  root = some (bytes "/www");
  regular_file = λ root relative. some (root ++ bytes "/" ++ relative);
  with_separator = λ root. root ++ bytes "/";
}

abbrev admin : AuthSettings
admin = record { enabled = true; username = bytes "admin"; ha1 = bytes "5f4dcc3b" }

abbrev page : Incoming
page = record {
  request = record {
    method = bytes "GET";
    path = bytes "/";
    target = bytes "/";
    authorization = none;
  };
  is_chunked = false;
  content_length = none;
}

pre_route-Guards_example :
    ReadsWebRoot root_of_one page.request
    ⊎ ((IsUpload [] page.request ⊎ IsSmall page) × IsLetIn same no_header admin 0 page.request)
unfolding pre_route is_static_file_request begins_with bytes_beq
pre_route-Guards_example = pre_route-Guards same no_header root_of_one [] admin 0 page refl

-- A file beside the web root, whose name begins as the root's, is not let out.
stays_below : begins_with (bytes "/www/") (bytes "/www2/a") ≡ false
unfolding begins_with
stays_below = refl

abbrev plain_call : Fields
plain_call =
    Rpc.field (bytes "method") (text (bytes "Version")) (Rpc.field (bytes "params") null no_fields)

normalize_params_lem_run : find_field (bytes "params") (normalize_params plain_call) ≡ (
    if bytes "params" == bytes "params"
    then normal (find_field (bytes "params") plain_call)
    else find_field (bytes "params") plain_call)
normalize_params_lem_run = normalize_params_lem (bytes "params") plain_call
