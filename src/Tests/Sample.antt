-- ===== src/Tests/Sample.antt =====
-- The sample data of the tests.
use opus8_cf.Base.{
  ℕ, zero, suc, ◌+◌, ◌*◌, ◌%◌, [], ◌∷◌, ◌++◌, none, some, if◌then◌else◌, ltb, Text, codes, other,
  undefined, str,
}
use opus8_cf.Nodes.{Node, NodeReport, healthy, banned}
use opus8_cf.Enrollment.Fields.{Runtime}
use opus8_cf.Enrollment.Tables.{NodeDb, Roots, Enrollment, Credential, isolated, migrate, issued}
use opus8_cf.Enrollment.Create.{CreateInput, Draws, ExchangeInput}
use opus8_cf.Enrollment.Activate.{RegisterRequest}

abbrev pub repeat : ℕ → ℕ → Text
repeat c zero = []
repeat c (suc n) = c ∷ repeat c n

abbrev pub sum : Text → ℕ
sum [] = 7
sum (c ∷ s) = (c + sum s * 31) % 1000003

abbrev pub hex_digit : ℕ → ℕ
hex_digit n = if ltb n 10 then b'0' + n else 87 + n

-- A signature of 64 hexadecimal digits.
abbrev pub sign : Text → Text → Text
sign key message = repeat (hex_digit (sum (key ++ message) % 16)) 64

abbrev pub rt : Runtime
rt = record {
  hmac_sign = sign;
  json_parse = λ s. none;
  json_strings = λ ss. codes "[]";
  string_of = λ v. [];
  number_of = λ s. other;
}

abbrev pub roots : Roots
roots = record { current = codes "root"; previous = none }

abbrev pub account : Text
account = repeat b'a' 32

abbrev pub token : Text
token = repeat b'7' 64

abbrev pub empty_db : NodeDb
empty_db = record { nodes = []; credentials = []; enrollments = [] }

abbrev pub draws : Draws
draws = record { path_hex = codes "00ff"; token = token; id = codes "e1"; salt = codes "s1" }

abbrev pub create_input : CreateInput
create_input = record {
  node_id = str (codes "n1");
  account_alias = str (codes "Main");
  account_id = str account;
  hostname = str (codes "n1.example.com");
  region = undefined;
  capabilities = undefined;
  preferred_ip = undefined;
  transport_path = undefined;
  ttl_seconds = undefined;
}

abbrev pub exchange_input : ExchangeInput
exchange_input = record { token = str token; node_id = str (codes "n1"); account_id = str account }

abbrev pub node_1 : Node
node_1 = record {
  id = codes "n1";
  account_alias = codes "main";
  hostname = codes "n1.example.com";
  region = none;
  capabilities = none;
  preferred_ip = none;
  transport_path = codes "/ws/00ff";
  health = banned;
  enabled = 0;
  last_seen = some 50;
  created_at = 10;
}

abbrev pub report : NodeReport
report = record {
  id = codes "n1";
  account_alias = codes "main";
  hostname = codes "n1.example.com";
  region = some (codes "HK");
  capabilities = none;
  preferred_ip = none;
  transport_path = some (codes "/ws/11");
  health = healthy;
  last_seen = 40;
  created_at = 40;
}

-- An enrollment of `n1` that was handed out, of the given kind.
abbrev pub handed_out : Enrollment
handed_out = record {
  id = codes "e2";
  node_id = codes "n1";
  kind = migrate;
  status = issued;
  account_alias = codes "main";
  account_id = account;
  hostname = codes "n1.example.com";
  region = none;
  capabilities = [];
  preferred_ip = none;
  transport_path = codes "/ws/00ff";
  token_hash = codes "hash";
  secret_salt = codes "s2";
  expires_at = 1000;
  issued_at = some 60;
  activated_at = none;
  created_at = 50;
  updated_at = 60;
}

abbrev pub credential : Credential
credential = record {
  node_id = codes "n1";
  auth_mode = isolated;
  current_salt = some (codes "s1");
  previous_salt = none;
  legacy_fallback = 0;
  activated_at = some 20;
  updated_at = 20;
}

-- A node with a credential, which is being given a new one.
abbrev pub rotating : NodeDb
rotating = record {
  nodes = node_1 ∷ [];
  credentials = credential ∷ [];
  enrollments = handed_out ∷ [];
}

abbrev pub register : RegisterRequest
register = record {
  node_id = codes "n1";
  account_alias = str (codes "main");
  hostname = str (codes "n1.example.com");
  region = none;
  capabilities = undefined;
  preferred_ip = none;
  transport_path = str (codes "/ws/00ff");
}
