-- ===== src/Audit/Scrub.antt =====
-- What `_scrub` takes out of the details of an event.
use corvus_node.Prelude.{◌≡◌, refl, false, ◌==◌, Bool-cases, inl, inr}
use corvus_node.Json.{
  Value, null, boolean, num, float, str, arr, obj, Items, nil, cons, Fields, end, field,
}
use corvus_node.Audit.{occurs, scrub, scrub_items, scrub_fields}

-- At no depth is there a key "session_key" or a text that holds these characters.
abbrev mutual
  pub NoSecret : Value → Type 0
  NoSecret (str s) = occurs "session_key" s ≡ false
  NoSecret (arr vs) = NoSecretItems vs
  NoSecret (obj fs) = NoSecretFields fs
  NoSecret null = Unit
  NoSecret (boolean b) = Unit
  NoSecret (num n) = Unit
  NoSecret (float s) = Unit

  pub NoSecretItems : Items → Type 0
  NoSecretItems nil = Unit
  NoSecretItems (cons v vs) = NoSecret v × NoSecretItems vs

  pub NoSecretFields : Fields → Type 0
  NoSecretFields end = Unit
  NoSecretFields (field k v fs) = ((k == "session_key") ≡ false) × NoSecret v × NoSecretFields fs

mutual
  unfolding scrub

  scrub_value-NoSecret : (v : Value) → NoSecret (scrub v)
  scrub_value-NoSecret (str s) = elim (Bool-cases (occurs "session_key" s)) [
    | inl h ↦ rw h refl
    | inr h ↦ rw h h
  ]
  scrub_value-NoSecret (arr vs) = scrub_items-NoSecret vs
  scrub_value-NoSecret (obj fs) = scrub_fields-NoSecretFields fs
  scrub_value-NoSecret null = tt
  scrub_value-NoSecret (boolean b) = tt
  scrub_value-NoSecret (num n) = tt
  scrub_value-NoSecret (float s) = tt

  scrub_items-NoSecret : (vs : Items) → NoSecretItems (scrub_items vs)
  scrub_items-NoSecret nil = tt
  scrub_items-NoSecret (cons v vs) = (scrub_value-NoSecret v, scrub_items-NoSecret vs)

  scrub_fields-NoSecretFields : (fs : Fields) → NoSecretFields (scrub_fields fs)
  scrub_fields-NoSecretFields end = tt
  scrub_fields-NoSecretFields (field k v fs) = elim (Bool-cases (k == "session_key")) [
    | inl h ↦ rw h (scrub_fields-NoSecretFields fs)
    | inr h ↦ rw h (h, scrub_value-NoSecret v, scrub_fields-NoSecretFields fs)
  ]

-- Whatever the details of an event hold, their scrubbed form has no key "session_key" and no text
-- with these characters in it, at any depth.
pub scrub-NoSecret : (v : Value) → NoSecret (scrub v)
scrub-NoSecret v = scrub_value-NoSecret v
