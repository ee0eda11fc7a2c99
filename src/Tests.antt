-- ===== src/Tests.antt =====
-- A concrete host, key and workers, on which the tests of the child modules run the code.
mod Actions
mod Workers
mod Calls
mod Calibrated
mod Resumption
mod Seals
mod Graphs
mod Registries
mod Salvaged
mod Limits
mod Trajectories
use illusiontion.Prelude.{
  ℕ, String, count, ◌≡◌, refl, Bool, true, false, Option, none, some, List, [], ◌∷◌, arith, Result,
  ok, err, same, ◌==◌, if◌then◌else◌, Bool-cases, inl, inr,
}
use illusiontion.Json.{Json, null, bool, num, str, arr, obj, Fields, end, field}
use illusiontion.Host.{Host, RuntimeKey}

abbrev pub digest_a : String
digest_a = "aaaaaaaaaaaaaaaaaaaaaaaaaaaaaaaaaaaaaaaaaaaaaaaaaaaaaaaaaaaaaaaa"

abbrev pub digest_b : String
digest_b = "bbbbbbbbbbbbbbbbbbbbbbbbbbbbbbbbbbbbbbbbbbbbbbbbbbbbbbbbbbbbbbbb"

-- The first number of a record: the epoch of a claim, the step of a permit.
abbrev pub first_number : Fields → String
first_number end = ""
first_number (field k (num n) rest) = if n == 2 then "2" else ""
first_number (field k null rest) = first_number rest
first_number (field k (bool b) rest) = first_number rest
first_number (field k (str s) rest) = first_number rest
first_number (field k (arr items) rest) = first_number rest
first_number (field k (obj fields) rest) = first_number rest

abbrev pub dumps : Json → String
dumps (obj fields) = first_number fields
dumps _ = ""

abbrev pub digest_of : String → String
digest_of s = if same s "2" then digest_b else digest_a

pub count-digest_of : (s : String) → count (digest_of s) ≡ 64
count-digest_of s = elim (Bool-cases (same s "2")) [
  | inl hit ↦ rw hit refl
  | inr miss ↦ rw miss refl
]

-- A host with two digests, by the number that a record starts with.
instance abbrev pub host : Host
host = record {
  json_dumps = dumps;
  sha256_hexdigest = digest_of;
  hmac_hexdigest = λ key message. digest_a;
  hmac_digest = λ key message. digest_a;
  aesgcm_encrypt = λ key nonce text aad. text;
  hexdigest_length = count-digest_of;
}

abbrev pub key : RuntimeKey
key = record { value = "kkkkkkkkkkkkkkkkkkkkkkkkkkkkkkkk"; long_enough = omega arith }

-- The value of a call that returns.
abbrev pub value_of : {A : Type 0} → Result A → A → A
value_of (ok a) d = a
value_of (err e) d = d
