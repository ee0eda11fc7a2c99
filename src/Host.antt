-- ===== src/Host.antt =====
-- What the program takes from hashlib, hmac and json, and interruption.py over them. The three
-- functions are parameters; the one law is the documented length of a hexadecimal SHA-256 digest.
use illusiontion.Prelude.{ℕ, String, count, len, ◌≡◌, ◌≤◌, ap, false, same, same-ne, arith}
use illusiontion.Json.{Json}

pub record Host : Type 0 where
  -- `json.dumps(value, ensure_ascii=False, sort_keys=True, separators=(",", ":"))`
  pub json_dumps : Json → String
  -- `hashlib.sha256(text.encode("utf-8")).hexdigest()`
  pub sha256_hexdigest : String → String
  -- `hmac.new(key, message.encode("ascii"), hashlib.sha256).hexdigest()`
  pub hmac_hexdigest : String → String → String
  -- `hmac.new(key, message.encode("utf-8"), hashlib.sha256).digest()`
  pub hmac_digest : String → String → String
  -- `AESGCM(key).encrypt(nonce, data, aad)`, in hexadecimal
  pub aesgcm_encrypt : (key nonce text aad : String) → String
  pub hexdigest_length : (s : String) → count (sha256_hexdigest s) ≡ 64

-- `_MIN_KEY_BYTES` of the stores.
abbrev pub min_key_bytes : ℕ
min_key_bytes = 32

-- A key that the constructors of the stores let through: shorter keys raise `ValueError` there.
pub record RuntimeKey : Type 0 where
  pub value : String
  pub long_enough : min_key_bytes ≤ len value

module _ ⦃host : Host⦄ where
  unfoldable pub canonical_json : Json → String
  canonical_json value = host.json_dumps value

  unfoldable pub sha256_text : String → String
  sha256_text text = host.sha256_hexdigest text

  unfoldable pub sha256_object : Json → String
  unfolding sha256_text canonical_json
  sha256_object value = sha256_text (canonical_json value)

  -- `_hmac(payload, key)`, for a key that is long enough.
  unfoldable pub hmac_payload : Json → RuntimeKey → String
  hmac_payload payload key = host.hmac_hexdigest key.value (sha256_object payload)

  pub count-sha256_object : (value : Json) → count (sha256_object value) ≡ 64
  unfolding sha256_object
  count-sha256_object value = host.hexdigest_length (host.json_dumps value)

  -- A digest is never the empty text, so a stored digest counts as true in a test.
  pub sha256_object-ne-empty : (value : Json) → same (sha256_object value) "" ≡ false
  sha256_object-ne-empty value =
      same-ne (sha256_object value) ""
        (λ e. absurd (omega (arith, count-sha256_object value, ap count e)))
