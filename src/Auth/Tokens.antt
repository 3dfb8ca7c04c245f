-- ===== src/Auth/Tokens.antt =====
-- app/services/auth/tokens.py: the signed session tokens. Base64, JSON, UTF-8 and HMAC are not of this
-- repository: they are the fields of Libraries, with what is documented of them as TokenLaws.
pub mod Laws
use google_ads_intelligence.Base.{
  ℕ, zero, suc, ◌+◌, ◌-◌, ◌%◌, ◌≡◌, Bool, true, false, not, ◌&&◌, ◌||◌, Option, none, some, List,
  [], ◌∷◌, ◌++◌, if◌then◌else◌, ◌==◌, length,
}
use google_ads_intelligence.Base.Int.{ℤ, pos, ltb_ℤ}
use google_ads_intelligence.Base.Eq.{◌=?◌, list_eq, nat_eq, mem}
use google_ads_intelligence.Base.Dict.{Dict, insert, lookup, HasUniqueKeys}
use google_ads_intelligence.Base.Text.{Text, codes, is_nonempty}

abbrev pub Bytes : Type 0
Bytes = List ℕ

abbrev pub Payload : Type 0 → Type 0
Payload J = Dict Text J

-- What `json.loads(raw.decode("utf-8"))` gives: an error, an object, or another value.
pub data Loaded (J : Type 0) : Type 0 where
  malformed other : Loaded J
  object : Payload J → Loaded J

-- base64.urlsafe_b64encode and _b64decode, str.encode, json.dumps(...).encode, hmac.new(...).digest, and
-- `int` on a JSON value; `none` is an exception.
pub record Libraries (J : Type 0) : Type 0 where
  pub b64encode : Bytes → Text
  pub b64decode : Text → Option Bytes
  pub utf8 : Text → Bytes
  pub dumps : Payload J → Bytes
  pub loads : Bytes → Loaded J
  pub digest : (key message : Bytes) → Bytes
  pub of_int : ℤ → J
  pub int_of : J → Option ℤ

-- What `verify` does: it returns None or the payload, or it raises.
pub data Verified (J : Type 0) : Type 0 where
  absent raised : Verified J
  payload : Payload J → Verified J

-- `s.rstrip(c)`
unfoldable pub rstrip_code : ℕ → Text → Text
rstrip_code c [] = []
rstrip_code c (d ∷ s) =
    let rest = rstrip_code c s in if d == c && not (is_nonempty rest) then [] else d ∷ rest

unfoldable pub repeat : ℕ → ℕ → Text
repeat zero c = []
repeat (suc n) c = c ∷ repeat n c

-- `-n % 4`
abbrev pub pad_length : ℕ → ℕ
pad_length n = (4 - n % 4) % 4

-- `s.split(c, 1)`, where `c in s`.
unfoldable pub split_once : ℕ → Text → Option (Text × Text)
split_once c [] = none
split_once c (d ∷ s) =
    let rest = split_once c s in
    if d == c then some ([], s) else (elim rest [ none ↦ none | some p ↦ some (d ∷ p.0, p.1) ])

module _ {J : Type 0} (lib : Libraries J) where
  -- _b64e
  unfoldable pub b64e : Bytes → Text
  b64e raw = rstrip_code 61 (lib.b64encode raw)

  -- _b64d
  unfoldable pub b64d : Text → Option Bytes
  b64d txt = lib.b64decode (txt ++ repeat (pad_length (length txt)) 61)

  -- The payload with its expiry.
  abbrev pub with_expiry : Payload J → ℕ → Payload J
  with_expiry d exp = insert (codes "exp") (lib.of_int (pos exp)) d

  -- sign, at the time `now`.
  unfoldable pub sign : (now : ℕ) → Payload J → (secret : Text) → (ttl_seconds : ℕ) → Text
  sign now d secret ttl_seconds =
      let raw = lib.dumps (with_expiry d (now + ttl_seconds)) in
      let sig = lib.digest (lib.utf8 secret) raw in b64e raw ++ 46 ∷ b64e sig

  -- `int(payload.get("exp", 0))`
  abbrev pub expiry : Payload J → Option ℤ
  expiry d = elim (lookup (codes "exp") d) [ none ↦ some (pos 0) | some j ↦ lib.int_of j ]

  -- The last test of `verify`.
  unfoldable pub unexpired : ℕ → Payload J → Verified J
  unexpired now d = elim (expiry d) [
    | none ↦ Verified.raised
    | some exp ↦ if ltb_ℤ exp (pos now) then Verified.absent else Verified.payload d
  ]

  -- verify, at the time `now`.
  unfoldable pub verify : (now : ℕ) → Text → (secret : Text) → Verified J
  verify now token secret =
      if not (is_nonempty token) || not (is_nonempty secret)
      then Verified.absent
      else (elim (split_once 46 token) [
        | none ↦ Verified.absent
        | some (body_b64, sig_b64) ↦ elim (b64d body_b64) [
          | none ↦ Verified.absent
          | some raw ↦ elim (b64d sig_b64) [
            | none ↦ Verified.absent
            | some sig ↦
                if not (lib.digest (lib.utf8 secret) raw =? sig)
                then Verified.absent
                else (elim (lib.loads raw) [
                  | malformed ↦ Verified.absent
                  | other ↦ Verified.raised
                  | object d ↦ unexpired now d
                ])
          ]
        ]
      ])

-- What is documented of base64 and JSON. The encoded text is its digits, of which none is `=` or `.`, with
-- `=` up to a multiple of four; decoding it gives the bytes. An object that is dumped is loaded with the
-- same values. An int is read back.
pub record TokenLaws {J : Type 0} (lib : Libraries J) : Type 0 where
  pub digits : Bytes → Text
  pub digits_equals : (b : Bytes) → mem 61 (digits b) ≡ false
  pub digits_dot : (b : Bytes) → mem 46 (digits b) ≡ false
  pub encode :
      (b : Bytes) → lib.b64encode b ≡ digits b ++ repeat (pad_length (length (digits b))) 61
  pub decode : (b : Bytes) → lib.b64decode (lib.b64encode b) ≡ some b
  pub load : (d : Payload J) → HasUniqueKeys d → Payload J
  pub loads_dumps :
      (d : Payload J) (u : HasUniqueKeys d) → lib.loads (lib.dumps d) ≡ Loaded.object (load d u)
  pub load_lookup :
      (d : Payload J) (u : HasUniqueKeys d) (key : Text) → lookup key (load d u) ≡ lookup key d
  pub int_of_int : (n : ℤ) → lib.int_of (lib.of_int n) ≡ some n
