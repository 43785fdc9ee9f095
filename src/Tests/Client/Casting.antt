-- ===== src/Tests/Client/Casting.antt =====
-- Runs of `serve_and_cast` and of the registration of files.
use oxicast.Common.{ℕ, ◌≡◌, refl, arith, String, true, false, none, some, List, [], ◌∷◌}
use oxicast.Types.Media
use oxicast.Error.{ok, err, file_not_found, internal}
use oxicast.Serve
use oxicast.Serve.{Access, opened, answer_file, get_file}
use oxicast.Serve.Hex.{to_hex, hex_before, digit_at}
use oxicast.Serve.Registry.{
  FileServer, Net, Call, detect_lan_ip, start, serve_file, url_of, remove_file, fetch_add,
}
use oxicast.Serve.Registry.Kept.{Step, registers, elsewhere, run}
use oxicast.Client.Playback.{load_media}
use oxicast.Client.Casting.{serve_and_cast}
use oxicast.Client.Laws.Casting.{serve_and_cast-ok}
use oxicast.Tests.Base.{json, to_f32, show_i64, app_client}
use oxicast.Tests.Client.{commands, playing_reply, status}

casting : Unit {0}
unfolding commands serve_and_cast start detect_lan_ip serve_file url_of remove_file to_hex
    hex_before digit_at run get_file Serve.serve_file
casting = tt

abbrev show_u16 : ℕ → String
show_u16 n = "8080"

abbrev net : Net
net = record {
  bound = true;
  local_port = some 8080;
  udp_bound = true;
  udp_connected = true;
  udp_address = some "192.168.1.2";
}

abbrev movie : Call
movie = record { path = "/m.mp4"; content_type = "video/mp4"; exists = true; poisoned = false }

abbrev missing : Call
missing = record movie { path = "/none"; exists = false }

abbrev server : FileServer
server = record { port = 8080; lan_ip = "192.168.1.2"; files = [] }

abbrev after_movie : FileServer
after_movie = (serve_file show_u16 movie 26 server).2

abbrev later : List Step
later = registers missing ∷ elsewhere ∷ registers movie ∷ []

abbrev disk : String → Access
disk path = opened (10 ∷ 11 ∷ []) true

-- The file number 26 is called 1a; a missing file takes no number.
registry_tests :
    ((serve_file show_u16 movie 26 server).0 ≡ ok "http://192.168.1.2:8080/file/1a")
    × (serve_file show_u16 missing 26 server ≡ (err (file_not_found "/none"), 26, server))
    × ((serve_file show_u16 (record movie { poisoned = true }) 26 server).0
        ≡ err (internal "file registry lock poisoned"))
    × (start net ≡ ok server)
unfolding casting
registry_tests = (refl, refl, refl, refl)

serve_and_cast-ok_example :
    (load_media json to_f32 show_i64
        (Media.new (url_of show_u16 after_movie (to_hex 26)) "video/mp4")
        true
        0
        none
        playing_reply
        app_client
      ≡ (
        ok status,
        (serve_and_cast json to_f32 show_i64 show_u16 net movie true 0 playing_reply 26
            app_client).1,
      ))
    × (Serve.serve_file
          (to_hex 26)
          none
          false
          (run show_u16 later (fetch_add 26) after_movie).files
          disk
        ≡ answer_file none (disk "/m.mp4"))
unfolding casting
serve_and_cast-ok_example =
    serve_and_cast-ok json to_f32 show_i64 show_u16 net movie true 0 playing_reply 26 app_client
      (serve_and_cast json to_f32 show_i64 show_u16 net movie true 0 playing_reply 26 app_client).1
      after_movie status later none disk refl (omega arith)
