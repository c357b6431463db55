-- ===== src/SecretBox/RoundTrip.antt =====
-- A value that packages/control-plane/src/secret-box.ts encrypts is read back.
use opus8_cf.Base.{
  ℕ, ◌≡◌, ◌≢◌, refl, sym, ◌∙◌, ap, arith, true, false, [], ◌∷◌, ◌++◌, some, All, Text, codes,
  text_eq, truthy, split, split_from, ok, Bool-cases, inl, inr, ◌==◌,
}
use mathlib.Core.List.{reverse, reverse-cons, append_assoc, append-nil}
use opus8_cf.SecretBox.{Cipher, usable, seal_json, parts_of, open_parts, or_err, open_json}

-- What the code relies on of the library functions that it is given; JSON is relied on for the values
-- that fit.
pub record IsCipher {A : Type 0} (cipher : Cipher A) (Fits : A → Type 0) : Type 0 where
  pub decode_encode : (s : Text) → cipher.decode (cipher.encode s) ≡ some s
  pub encode_some : (s : Text) → truthy s ≡ true → truthy (cipher.encode s) ≡ true
  pub encode_no_dot : (s : Text) → All (λ c. c ≢ b'.') (cipher.encode s)
  pub decrypt_encrypt :
      (secret iv additional_data plain : Text)
      → cipher.decrypt secret iv additional_data (cipher.encrypt secret iv additional_data plain)
        ≡ some plain
  pub encrypt_some :
      (secret iv additional_data plain : Text)
      → truthy (cipher.encrypt secret iv additional_data plain) ≡ true
  pub parse_stringify :
      (value : A) → Fits value → cipher.parse (cipher.stringify value) ≡ some value

moved : (cur : Text) (c : ℕ) (s : Text) → reverse (c ∷ cur) ++ s ≡ reverse cur ++ (c ∷ s)
moved cur c s = ap (λ z. z ++ s) (reverse-cons c cur) ∙ append_assoc (reverse cur) (c ∷ []) s

other_unit : (sep c : ℕ) → c ≢ sep → (c == sep) ≡ false
other_unit sep c h = ground arith

own_unit : (sep : ℕ) → (sep == sep) ≡ true
own_unit sep = ground arith

split_from-last :
    (sep : ℕ) (cur s : Text) → All (λ c. c ≢ sep) s → split_from sep cur s ≡ (reverse cur ++ s) ∷ []
unfolding split_from
split_from-last sep cur [] h = ap (λ z. z ∷ []) (sym (append-nil (reverse cur)))
split_from-last sep cur (c ∷ s) h =
    rw (split_from, other_unit sep c h.0)
      (split_from-last sep (c ∷ cur) s h.1 ∙ ap (λ z. z ∷ []) (moved cur c s))

split_from-part :
    (sep : ℕ) (cur s rest : Text)
    → All (λ c. c ≢ sep) s
    → split_from sep cur (s ++ (sep ∷ rest)) ≡ (reverse cur ++ s) ∷ split_from sep [] rest
unfolding split_from
split_from-part sep cur [] rest h =
    rw (split_from, own_unit sep)
      (ap (λ z. z ∷ split_from sep [] rest) (sym (append-nil (reverse cur))))
split_from-part sep cur (c ∷ s) rest h =
    rw (split_from, other_unit sep c h.0)
      (split_from-part sep (c ∷ cur) s rest h.1
        ∙ ap (λ z. z ∷ split_from sep [] rest) (moved cur c s))

split-envelope :
    (a b c : Text)
    → All (λ x. x ≢ b'.') a
    → All (λ x. x ≢ b'.') b
    → All (λ x. x ≢ b'.') c
    → split b'.' (a ++ (b'.' ∷ (b ++ (b'.' ∷ c)))) ≡ a ∷ b ∷ c ∷ []
unfolding split
split-envelope a b c h k l =
    split_from-part b'.' [] a (b ++ (b'.' ∷ c)) h
    ∙ ap (λ z. a ∷ z)
        (split_from-part b'.' [] b c k ∙ ap (λ z. b ∷ z) (split_from-last b'.' [] c l))

module _ {A : Type 0} (cipher : Cipher A) (Fits : A → Type 0) (laws : IsCipher cipher Fits) where
  parts-sealed :
      (iv body : Text)
      → truthy iv ≡ true
      → truthy body ≡ true
      → parts_of cipher
          (split b'.' (codes "v1" ++ (b'.' ∷ (cipher.encode iv ++ (b'.' ∷ cipher.encode body)))))
        ≡ some (cipher.encode iv, cipher.encode body)
  unfolding parts_of text_eq
  parts-sealed iv body h k =
      rw
        (
          split-envelope (codes "v1") (cipher.encode iv) (cipher.encode body) (omega arith)
              (laws.encode_no_dot iv) (laws.encode_no_dot body),
          parts_of,
          laws.encode_some iv h,
          laws.encode_some body k,
        )
        refl

  open-sealed :
      (secret additional_data iv : Text) (value : A)
      → Fits value
      → open_parts cipher secret additional_data (
        cipher.encode iv,
        cipher.encode (cipher.encrypt secret iv additional_data (cipher.stringify value)),
      )
        ≡ ok value
  unfolding open_parts or_err
  open-sealed secret additional_data iv value fits =
      rw
        (
          open_parts,
          laws.decode_encode iv,
          laws.decode_encode (cipher.encrypt secret iv additional_data (cipher.stringify value)),
          laws.decrypt_encrypt secret iv additional_data (cipher.stringify value),
          laws.parse_stringify value fits,
        )
        refl

-- What sealJson encrypts under a secret, openJson reads back under that secret with the same
-- additional data. The value fits, the random bytes are not empty, the encryption and the encoding
-- give back what they are given, and JSON gives back the values that fit.
pub seal-open :
    {A : Type 0} (cipher : Cipher A) (Fits : A → Type 0)
    → IsCipher cipher Fits
    → (secret : Text) (value : A) (additional_data iv envelope : Text) → Fits value
    → truthy iv ≡ true
    → seal_json cipher secret value additional_data iv ≡ ok envelope
    → open_json cipher secret envelope additional_data ≡ ok value
unfolding seal_json open_json
seal-open cipher Fits laws secret value additional_data iv envelope fits drawn h =
    elim (Bool-cases (usable cipher secret)) [
      | inr short ↦ absurd (ground arith)
      | inl long ↦
          let sealed = cipher.encrypt secret iv additional_data (cipher.stringify value) in
          let text : codes "v1" ++ (b'.' ∷ (cipher.encode iv ++ (b'.' ∷ cipher.encode sealed)))
              ≡ envelope =
            ground arith in
          rw
            (
              sym text,
              open_json,
              parts-sealed cipher Fits laws iv sealed drawn
                  (laws.encrypt_some secret iv additional_data (cipher.stringify value)),
              long,
            )
            (open-sealed cipher Fits laws secret additional_data iv value fits)
    ]
