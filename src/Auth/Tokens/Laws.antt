-- ===== src/Auth/Tokens/Laws.antt =====
-- A signed token is verified until it expires, and no token with another signature is.
use google_ads_intelligence.Base.{
  ℕ, zero, suc, ◌+◌, ◌≡◌, refl, sym, ap, ◌∙◌, ◌⊎◌, inl, inr, true, false, not, none, some, [], ◌∷◌,
  ◌++◌, ◌==◌, ==_iff, Bool-cases, Option-cases, if◌then◌else◌, ltb, arith,
}
use google_ads_intelligence.Base.Int.{ℤ, pos, ltb_ℤ}
use google_ads_intelligence.Base.Eq.{◌=?◌, list_eq, nat_eq, mem, beq_refl}
use google_ads_intelligence.Base.Dict.{
  lookup, lookup-insert_self, insert-HasUniqueKeys, HasUniqueKeys,
}
use google_ads_intelligence.Base.Text.{Text, codes, is_nonempty}
use google_ads_intelligence.Auth.Tokens.{
  Bytes, Payload, Libraries, Loaded, Verified, TokenLaws, rstrip_code, repeat, split_once, b64e,
  b64d, with_expiry, expiry, sign, unexpired, verify,
}

rstrip_code-repeat : (n c : ℕ) → rstrip_code c (repeat n c) ≡ []
unfolding rstrip_code repeat
rstrip_code-repeat zero c = refl
rstrip_code-repeat (suc n) c = ground (arith, rstrip_code-repeat n c)

pub rstrip_code-append :
    (c n : ℕ) (s : Text) → mem c s ≡ false → rstrip_code c (s ++ repeat n c) ≡ s
unfolding rstrip_code
rstrip_code-append c n [] h = rstrip_code-repeat n c
rstrip_code-append c n (d ∷ s) h = ground (arith, rstrip_code-append c n s)

split_once-append : (c : ℕ) (s t : Text) → mem c s ≡ false → split_once c (s ++ c ∷ t) ≡ some (s, t)
unfolding split_once
split_once-append c [] t h = ground arith
split_once-append c (d ∷ s) t h = ground (arith, split_once-append c s t)

is_nonempty-append : (s t : Text) (c : ℕ) → is_nonempty (s ++ c ∷ t) ≡ true
is_nonempty-append [] t c = refl
is_nonempty-append (d ∷ s) t c = refl

ltb_pos : (a b : ℕ) → ltb_ℤ (pos a) (pos b) ≡ ltb a b
ltb_pos a b = ground arith

split_once-Split :
    (c : ℕ) (s : Text)
    → (split_once c s ≡ none)
      ⊎ ((p : Text × Text) × ((split_once c s ≡ some p)
            × ((s ≡ p.0 ++ c ∷ p.1) × (mem c p.0 ≡ false))))
unfolding split_once
split_once-Split c [] = inl refl
split_once-Split c (d ∷ s) = elim (Bool-cases (d == c)) [
  | inl same ↦ inr (([], s), (rw same refl, (ap (λ x. x ∷ s) ((==_iff d c).0 same), refl)))
  | inr other ↦ elim (split_once-Split c s) [
    | inl missing ↦ inl (rw (other, missing) refl)
    | inr (p, (found, (parts, first))) ↦ inr (
      (d ∷ p.0, p.1),
      (rw (other, found) refl, (ap (λ x. d ∷ x) parts, ground (arith, other, first))),
    )
  ]
]

-- Why a token is taken, and its payload. Nothing in it is assumed of the libraries.
pub record Authentic {J : Type 0} (lib : Libraries J) (now : ℕ) (token secret : Text)
    (d : Payload J) : Type 0 where
  pub body : Text
  pub signature : Text
  pub raw : Bytes
  pub exp : ℤ
  pub has_secret : is_nonempty secret ≡ true
  pub parts : token ≡ body ++ 46 ∷ signature
  pub first_dot : mem 46 body ≡ false
  pub body_is : b64d lib body ≡ some raw
  pub signature_is : b64d lib signature ≡ some (lib.digest (lib.utf8 secret) raw)
  pub payload_is : lib.loads raw ≡ Loaded.object d
  pub expires : expiry lib d ≡ some exp
  pub in_time : ltb_ℤ exp (pos now) ≡ false

module _ {J : Type 0} (lib : Libraries J) where
  -- What `verify` does with the bytes of a token.
  abbrev checked : ℕ → Bytes → Bytes → Text → Verified J
  checked now raw sig secret =
      if not (lib.digest (lib.utf8 secret) raw =? sig)
      then Verified.absent
      else (elim (lib.loads raw) [
        | Loaded.malformed ↦ Verified.absent
        | Loaded.other ↦ Verified.raised
        | Loaded.object d ↦ unexpired lib now d
      ])

Loaded-cases :
    {J : Type 0} (x : Loaded J)
    → (x ≡ Loaded.malformed) ⊎ ((x ≡ Loaded.other) ⊎ ((d : Payload J) × (x ≡ Loaded.object d)))
Loaded-cases Loaded.malformed = inl refl
Loaded-cases Loaded.other = inr (inl refl)
Loaded-cases (Loaded.object d) = inr (inr (d, refl))

unexpired_payload :
    {J : Type 0} (lib : Libraries J) (now : ℕ) (e d : Payload J)
    → unexpired lib now e ≡ Verified.payload d
    → (e ≡ d) × ((exp : ℤ) × ((expiry lib d ≡ some exp) × (ltb_ℤ exp (pos now) ≡ false)))
unfolding unexpired
unexpired_payload lib now e d = elim (Option-cases (expiry lib e)) [
  | inl bad ↦ rw (unexpired, bad) (λ h. ground (arith, h))
  | inr (exp, found) ↦ elim (Bool-cases (ltb_ℤ exp (pos now))) [
    | inl late ↦ rw (unexpired, found, late) (λ h. ground (arith, h))
    | inr in_time ↦
        rw (unexpired, found, in_time)
          (λ h. let same : e ≡ d = ground (arith, h) in (same, (exp, (rw (← same) found, in_time))))
  ]
]

module _ {J : Type 0} (lib : Libraries J) (now : ℕ) (token secret : Text) (d : Payload J) where
  loaded-Authentic :
      (body signature : Text) (raw sig : Bytes)
      → is_nonempty secret ≡ true
      → token ≡ body ++ 46 ∷ signature
      → mem 46 body ≡ false
      → b64d lib body ≡ some raw
      → b64d lib signature ≡ some sig
      → checked lib now raw sig secret ≡ Verified.payload d
      → Authentic lib now token secret d
  loaded-Authentic body signature raw sig s parts first b g =
      elim (Bool-cases (lib.digest (lib.utf8 secret) raw =? sig)) [
        | inr forged ↦ rw forged (λ h. ground (arith, h))
        | inl signed ↦ elim (Loaded-cases (lib.loads raw)) [
          | inl bad ↦ rw (signed, bad) (λ h. ground (arith, h))
          | inr (inl other) ↦ rw (signed, other) (λ h. ground (arith, h))
          | inr (inr (e, loaded)) ↦
              rw (signed, loaded)
                (λ h.
                  let u = unexpired_payload lib now e d h in
                  record {
                    body = body;
                    signature = signature;
                    raw = raw;
                    exp = u.1.0;
                    has_secret = s;
                    parts = parts;
                    first_dot = first;
                    body_is = b;
                    signature_is = g ∙ ap some (sym (((list_eq).beq_iff _ _).0 signed));
                    payload_is = loaded ∙ ap (λ x. Loaded.object x) u.0;
                    expires = u.1.1.0;
                    in_time = u.1.1.1;
                  })
        ]
      ]

  -- Let `verify` take any token at all, and give a payload. The secret is not empty; the token has a
  -- dot, and what stands behind the first one decodes to the digest, under this secret, of the bytes
  -- that the part before it decodes to; the payload is what those bytes are loaded as; it has an
  -- expiry that is an int (0 if it has none), and the time is not past it.
  pub verify-Authentic :
      verify lib now token secret ≡ Verified.payload d → Authentic lib now token secret d
  unfolding verify unexpired
  verify-Authentic = elim (Bool-cases (is_nonempty token)) [
    | inr empty ↦ rw (verify, empty) (λ h. ground (arith, h))
    | inl nonempty ↦ elim (Bool-cases (is_nonempty secret)) [
      | inr empty ↦ rw (verify, nonempty, empty) (λ h. ground (arith, h))
      | inl s ↦ elim (split_once-Split 46 token) [
        | inl none_found ↦ rw (verify, nonempty, s, none_found) (λ h. ground (arith, h))
        | inr ((body, signature), (found, (parts, first))) ↦ elim (Option-cases (b64d lib body)) [
          | inl bad ↦ rw (verify, nonempty, s, found, bad) (λ h. ground (arith, h))
          | inr (raw, b) ↦ elim (Option-cases (b64d lib signature)) [
            | inl bad ↦ rw (verify, nonempty, s, found, b, bad) (λ h. ground (arith, h))
            | inr (sig, g) ↦
                rw (verify, nonempty, s, found, b, g)
                  (loaded-Authentic body signature raw sig s parts first b g)
          ]
        ]
      ]
    ]
  ]

module _ {J : Type 0} {lib : Libraries J} (laws : TokenLaws lib) where
  b64e-digits : (b : Bytes) → b64e lib b ≡ laws.digits b
  unfolding b64e
  b64e-digits b =
      rw (laws.encode b) (rstrip_code-append 61 _ (laws.digits b) (laws.digits_equals b))

  b64d-b64e : (b : Bytes) → b64d lib (b64e lib b) ≡ some b
  unfolding b64d
  b64d-b64e b = rw (b64d, b64e-digits b, ← laws.encode b) (laws.decode b)

  split_once-token :
      (raw sig : Bytes)
      → split_once 46 (b64e lib raw ++ 46 ∷ b64e lib sig) ≡ some (b64e lib raw, b64e lib sig)
  split_once-token raw sig = split_once-append 46 _ _ (rw (b64e-digits raw) (laws.digits_dot raw))

  verify-token :
      (now : ℕ) (raw sig : Bytes) (secret : Text)
      → is_nonempty secret ≡ true
      → verify lib now (b64e lib raw ++ 46 ∷ b64e lib sig) secret ≡ checked lib now raw sig secret
  unfolding verify
  verify-token now raw sig secret h =
      rw
        (
          verify,
          is_nonempty-append (b64e lib raw) (b64e lib sig) 46,
          h,
          split_once-token raw sig,
          b64d-b64e raw,
          b64d-b64e sig,
        )
        refl

  loaded-unexpired :
      (now exp : ℕ) (d : Payload J) (u : HasUniqueKeys (with_expiry lib d exp))
      → unexpired lib now (laws.load (with_expiry lib d exp) u) ≡ (
          if ltb exp now
          then Verified.absent
          else Verified.payload (laws.load (with_expiry lib d exp) u))
  unfolding unexpired
  loaded-unexpired now exp d u =
      let found : lookup (codes "exp") (laws.load (with_expiry lib d exp) u)
          ≡ some (lib.of_int (pos exp)) =
        laws.load_lookup (with_expiry lib d exp) u (codes "exp")
        ∙ lookup-insert_self (codes "exp") (lib.of_int (pos exp)) d in
      rw (unexpired, found, laws.int_of_int (pos exp), ltb_pos exp now) refl

  -- Let the secret not be empty, and let no key stand twice in the payload. A token that is signed at one
  -- time is verified at another: until `ttl_seconds` have passed the result is the payload with its expiry
  -- (each key has the value that it has there), and after that it is None.
  pub verify-sign :
      (signed now : ℕ) (d : Payload J) (secret : Text) (ttl_seconds : ℕ) (u : HasUniqueKeys d)
      → is_nonempty secret ≡ true
      → (loaded : Payload J) × (((key : Text)
            → lookup key loaded ≡ lookup key (with_expiry lib d (signed + ttl_seconds)))
          × (verify lib now (sign lib signed d secret ttl_seconds) secret ≡ (
              if ltb (signed + ttl_seconds) now then Verified.absent else Verified.payload loaded)))
  unfolding sign
  verify-sign signed now d secret ttl_seconds u h =
      let exp = signed + ttl_seconds in
      let full = with_expiry lib d exp in
      let v = insert-HasUniqueKeys (codes "exp") (lib.of_int (pos exp)) d u in
      let raw = lib.dumps full in
      let sig = lib.digest (lib.utf8 secret) raw in
      (
        laws.load full v,
        (
          laws.load_lookup full v,
          verify-token now raw sig secret h
              ∙ rw (checked, beq_refl sig, laws.loads_dumps full v) (loaded-unexpired now exp d v),
        ),
      )
