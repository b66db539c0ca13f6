-- ===== src/Tests.antt =====
-- Tests at concrete inputs: the data that they share.
pub mod StoreTests
pub mod AuthTests
pub mod InspectorTests
pub mod ScannerTests
pub mod LogTests
pub mod StartTests
pub mod ServerTests
pub mod InputTests
use my_home_index_server.Prelude.{
  ℕ, ◌*◌, ◌+◌, ◌/◌, inr, Bool, true, false, Option, none, some, List, [], ◌∷◌, ◌++◌,
}
use my_home_index_server.Prelude.Bytes.{Bytes, codes}
use my_home_index_server.Prelude.Int.{ℤ, pos}
use my_home_index_server.Prelude.Time.{Time, second, unix_to_internal}
use my_home_index_server.Disk.{Disk, Faults, no_faults}
use my_home_index_server.Store.{Host, Store, Persisted, Remembered, LabelEntry}
use my_home_index_server.Store.Hydrate.{as_parsed}
use my_home_index_server.Auth.{Auth, Crypto, new_auth}
use my_home_index_server.Auth.Cookie.{copy_into}
use my_home_index_server.Process.{Listener, Scan, System, Launcher, Spec}
use my_home_index_server.Inspector.{ProcInfo, Inspected}
use my_home_index_server.Config.{Config, Options, Surroundings}
use my_home_index_server.Server.{Server, Request, World}

-- An instant after 1970.
abbrev pub noon : Time
noon = (unix_to_internal + 1000) * second

abbrev pub server_argv : List Bytes
server_argv = codes "python3" ∷ codes "app.py" ∷ []

abbrev pub entry : Remembered
entry = record {
  id = codes "01A";
  port = pos 40123;
  command = server_argv;
  cwd = codes "/srv";
  env = some [];
  killed_at = noon;
  label_key = codes "k";
}

abbrev pub labelled_entry : LabelEntry
labelled_entry = record {
  cwd = codes "/srv";
  command = server_argv;
  label = codes "web";
  updated_at = noon;
}

abbrev pub content : Persisted
content = record {
  version = pos 1;
  labels = (codes "k", labelled_entry) ∷ [];
  remembered = entry ∷ [];
}

abbrev pub disk : Disk
disk = record { committed = none; tmp = none }

abbrev pub store : Store
store = record { content = content; disk = disk }

-- A host whose digest is its input, and whose file stands for the one state above.
abbrev pub host : Host
host = record {
  sha256 = λ s. s;
  marshal = λ p. some (codes "{}");
  unmarshal = λ s. some (as_parsed content);
}

-- A disk on which the data cannot be synced.
abbrev pub bad_disk : Faults
bad_disk = record no_faults { sync_fails = true }

-- A digest that is its input, and a MAC of 32 bytes that depends on the key and the message.
abbrev pub crypto : Crypto
crypto = record { sha256 = λ s. s; hmac = λ key s. copy_into 32 (key ++ s) }

abbrev pub token : Bytes
token = codes "0123456789abcdef"

abbrev pub auth : Auth
auth = new_auth token (codes "session-secret")

abbrev pub address : Bytes
address = codes "10.0.0.7"

-- Five failures within a second.
abbrev pub five : List Time
five = noon ∷ noon ∷ noon ∷ noon ∷ noon ∷ []

abbrev pub locked_auth : Auth
locked_auth = record auth { failures = (address, five) ∷ [] }

-- One listener, and a system on which every signal arrives.
abbrev pub listeners : List Listener
listeners = record { pid = pos 321; port = pos 40123; addrs = codes "0.0.0.0:40123" ∷ [] } ∷ []

abbrev pub system : System
system = record { find_process = λ p. true; deliver = λ p s. true }

abbrev pub launcher : Launcher
launcher = record { opens_read = true; opens_write = true; start = λ c. some (pos 999) }

abbrev pub spec : Spec
spec = record { command = server_argv; cwd = codes "/srv"; env = none }

abbrev pub info : ProcInfo
info = record {
  pid = pos 321;
  command = server_argv;
  cwd = codes "/srv";
  start_time = noon;
  uid = pos 501;
  env = none;
}

abbrev pub world : World
world = record {
  checked_at = noon;
  acted_at = noon;
  shown_at = noon;
  before = inr listeners;
  guard = Scan.scanned listeners;
  after = inr listeners;
  expired = none;
  inspect = λ p. record { info = some info; failed = false };
  inspect_after = λ p. record { info = some info; failed = false };
  system = system;
  launcher = launcher;
  faults = no_faults;
  entropy = none;
  whole_seconds = λ d. d / second;
  renders = λ name. true;
}

-- A login with the right token, and with a bearer token for every other route.
abbrev pub request : Request
request = record {
  remote_addr = codes "10.0.0.7:5000";
  remote_host = some address;
  authorization = codes "Bearer 0123456789abcdef";
  requested_with = [];
  forwarded_for = [];
  cookie = none;
  form = some (λ key. token);
  query_next = [];
}

abbrev pub config : Config
config = record {
  auth_token = token;
  session_secret = codes "session-secret-0";
  port = pos 40000;
  kill_grace_ms = pos 3000;
  scanner = codes "auto";
  state_dir = codes "/srv/.port-manager";
  port_min = pos 40000;
  port_max = pos 50000;
  trust_xff = false;
  public_host = codes "home.lan";
}

abbrev pub server : Server
server = record {
  cfg = some config;
  auth = some auth;
  store = some store;
  has_scanner = true;
  has_inspector = true;
  has_process = true;
  self = pos 7;
  user = codes "u";
  snapshot = [];
}

-- No option is given.
abbrev pub options : Options
options = record {
  auth_token = [];
  session_secret = [];
  public_host = [];
  port = none;
  port_min = pos 0;
  port_max = pos 0;
  kill_grace_ms = pos 0;
  scanner = [];
  state_dir = [];
  trust_xff = false;
}

-- The .env file has the session secret, and the token is made.
abbrev pub surroundings : Surroundings
surroundings = record {
  file = some ((codes "SESSION_SECRET", token) ∷ []);
  getenv = λ key. [];
  home_dir = some (codes "/home/u/.port-manager");
  token_entropy = some (codes "0123456789abcdef0123456789abcdef");
  secret_entropy = none;
}

abbrev pub env_disk : Disk
env_disk = record {
  committed = some (record { content = codes "SESSION_SECRET=0123456789abcdef"; synced = true });
  tmp = none;
}

-- What lsof prints for one listener of process 321 and one of the dashboard, process 7.
abbrev pub lsof_output : Bytes
lsof_output =
    codes "p321"
    ++ (10 ∷ codes "PTCP")
    ++ (10 ∷ codes "n*:40123")
    ++ (10 ∷ codes "p7")
    ++ (10 ∷ codes "PTCP")
    ++ (10 ∷ codes "n127.0.0.1:40000")
