-- ===== src/Serve/Registry.antt =====
-- `FileServer` of src/serve.rs: its start, and the registration of files. Ids are taken from a counter
-- that all servers of the process share. The text of a port is a parameter, and so are the answers of
-- the sockets.
pub mod Kept
use Prim.Native.String.{◌++◌ as push_str}
use oxicast.Common.{
  ℕ, ◌+◌, ◌%◌, ◌^◌, String, Bool, not, Option, none, some, List, [], ◌∷◌, if◌then◌else◌, str_eq,
}
use oxicast.Error.{Result, ok, err, ◌>>=◌, ok_or, file_not_found, internal}
use oxicast.Serve.{FileEntry}
use oxicast.Serve.Hex.{to_hex}

-- Only the port of the address is read. The registry is a map from ids to entries.
pub record FileServer : Type 0 where
  pub port : ℕ
  pub lan_ip : String
  pub files : List (String × FileEntry)

-- What the sockets answer: whether the listener is bound, and its port; whether the UDP socket is bound
-- and connected, and its own address.
pub record Net : Type 0 where
  pub bound : Bool
  pub local_port : Option ℕ
  pub udp_bound : Bool
  pub udp_connected : Bool
  pub udp_address : Option String

abbrev check : Bool → String → Result (Unit {0})
check b what = if b then ok tt else err (internal what)

unfoldable pub detect_lan_ip : Net → Result String
detect_lan_ip net = check net.udp_bound "UDP bind" >>= λ _.
    check net.udp_connected "UDP connect" >>= λ _. ok_or net.udp_address (internal "local addr")

unfoldable pub start : Net → Result FileServer
unfolding detect_lan_ip
start net = check net.bound "bind file server" >>= λ _.
    ok_or net.local_port (internal "local addr") >>= λ port.
    detect_lan_ip net >>= λ ip. ok (record { port = port; lan_ip = ip; files = [] })

unfoldable pub remove_file : String → List (String × FileEntry) → List (String × FileEntry)
remove_file id [] = []
remove_file id ((k, e) ∷ files) =
    let rest = remove_file id files in if str_eq k id then rest else (k, e) ∷ rest

-- `HashMap::insert`.
abbrev pub insert_file : String → FileEntry → List (String × FileEntry) → List (String × FileEntry)
insert_file id e files = (id, e) ∷ remove_file id files

-- The arguments of a call, whether the path exists, and whether the registry's lock is poisoned.
pub record Call : Type 0 where
  pub path : String
  pub content_type : String
  pub exists : Bool
  pub poisoned : Bool

abbrev pub entry_of : Call → FileEntry
entry_of c = record { path = c.path; content_type = c.content_type }

-- `COUNTER.fetch_add`, which wraps.
abbrev pub fetch_add : ℕ → ℕ
fetch_add counter = (counter + 1) % 2 ^ 64

module _ (show_u16 : ℕ → String) where
  unfoldable pub url_of : FileServer → (id : String) → String
  url_of s id =
      push_str "http://"
        (push_str s.lan_ip (push_str ":" (push_str (show_u16 s.port) (push_str "/file/" id))))

  -- The write to the registry, under its lock.
  abbrev pub store_entry : Call → (id : String) → FileServer → Result String × FileServer
  store_entry c id s =
      if c.poisoned
      then (err (internal "file registry lock poisoned"), s)
      else (ok (url_of s id), record s { files = insert_file id (entry_of c) s.files })

  -- `FileServer::serve_file`, with the counter before and after.
  unfoldable pub serve_file : Call → ℕ → FileServer → Result String × ℕ × FileServer
  unfolding url_of remove_file
  serve_file c counter s =
      if not c.exists
      then (err (file_not_found c.path), counter, s)
      else let (r, t) = store_entry c (to_hex counter) s in (r, fetch_add counter, t)
