-- ===== src/Identity.antt =====
-- src/corvus_node/identity/principal.py: who is speaking to the Node.
use corvus_node.Prelude.{String, ◌<>◌, Bool, true, false}

pub data Role : Type 0 where
  operator user : Role

pub data Zone : Type 0 where
  console local_gui channel : Zone

pub record Principal : Type 0 where
  pub issuer : String
  pub subject : String
  pub role : Role
  pub zone : Zone

abbrev pub role_eq : Role → Role → Bool
role_eq operator operator = true
role_eq user user = true
role_eq _ _ = false

-- `Principal.id`
unfoldable pub principal_id : Principal → String
principal_id p = p.issuer <> (":" <> p.subject)

unfoldable pub is_operator : Principal → Bool
is_operator p = role_eq p.role operator

abbrev pub operator_principal : Principal
operator_principal = record {
  issuer = "local";
  subject = "operator";
  role = operator;
  zone = console;
}
