-- ===== src/Ingest/RemoteWrite/Decode.antt =====
-- When `decode_write_request` of src/ingest/remote_write.rs accepts a body.
use skaldberg.Base.{
  ℕ, ◌≤◌, ◌≡◌, ◌↔◌, false, some, List, arith, ltb, sym, ◌∙◌, length, ok, map_err, >>=-eq-ok,
  map_err-eq-ok, err-ne-ok, ok-inj, Option-cases, Bool-cases, inl, inr,
}
use skaldberg.Ingest.RemoteWrite.{
  Codec, WriteRequest, snappy, protobuf, check_size, decode_body, decode_write_request,
  max_decompressed_bytes,
}

module _ {F S P : Type 0} (c : Codec F S P) where
  -- The length that a body declares, if it declares one, is within the limit.
  abbrev pub DeclaresAtMost : List ℕ → Type 0
  DeclaresAtMost compressed =
      (n : ℕ) → c.decompress_len compressed ≡ some n → n ≤ max_decompressed_bytes

  check_size-ok :
      (body body' : List ℕ)
      → check_size c body ≡ ok body'
      → (length body ≤ max_decompressed_bytes) × (body ≡ body')
  unfolding check_size
  check_size-ok body body' h = elim (Bool-cases (ltb max_decompressed_bytes (length body))) [
    | inl e ↦ absurd (err-ne-ok (rw (e) at h))
    | inr e ↦ (ground arith, ok-inj (rw (e) at h))
  ]

  decode_body-ok :
      (compressed : List ℕ) (req : WriteRequest F)
      → decode_body c compressed ≡ ok req
      → (body : List ℕ) × (c.decompress_vec compressed ≡ ok body)
        × (length body ≤ max_decompressed_bytes)
        × (c.decode body ≡ ok req)
  unfolding decode_body
  decode_body-ok compressed req h =
      let (body, e₁, k₁) = >>=-eq-ok (map_err snappy (c.decompress_vec compressed)) _ req h in
      let (body', e₂, k₂) = >>=-eq-ok (check_size c body) _ req k₁ in
      let (bound, same) = check_size-ok body body' e₂ in
      (
        body,
        map_err-eq-ok snappy (c.decompress_vec compressed) body e₁,
        bound,
        rw (← same) at (map_err-eq-ok protobuf (c.decode body') req k₂),
      )

  decode_body-of :
      (compressed body : List ℕ) (req : WriteRequest F)
      → c.decompress_vec compressed ≡ ok body
      → length body ≤ max_decompressed_bytes
      → c.decode body ≡ ok req
      → decode_body c compressed ≡ ok req
  unfolding decode_body check_size
  decode_body-of compressed body req h₁ h₂ h₃ =
      let small : ltb max_decompressed_bytes (length body) ≡ false = ground arith in
      rw h₁ (rw (small, h₃))

  le→ltb_false : (n : ℕ) → n ≤ max_decompressed_bytes → ltb max_decompressed_bytes n ≡ false
  le→ltb_false n h = ground arith

  -- Within the declared limit, the body decides.
  decode-within :
      (compressed : List ℕ)
      → DeclaresAtMost compressed
      → decode_write_request c compressed ≡ decode_body c compressed
  unfolding decode_write_request
  decode-within compressed d = elim (Option-cases (c.decompress_len compressed)) [
    | inl e ↦ rw (e, decode_write_request)
    | inr (n, e) ↦
        let under : ltb max_decompressed_bytes n ≡ false = le→ltb_false n (d n e) in
        rw (e, decode_write_request) (rw under)
  ]

  declared-ok :
      (compressed : List ℕ) (req : WriteRequest F)
      → decode_write_request c compressed ≡ ok req
      → DeclaresAtMost compressed
  unfolding decode_write_request
  declared-ok compressed req h n e = elim (Bool-cases (ltb max_decompressed_bytes n)) [
    | inl over ↦ absurd (err-ne-ok (rw (over) at (rw (e, decode_write_request) at h)))
    | inr under ↦ ground arith
  ]

  -- A body is decoded exactly when the length that it declares, if any, is within the limit, and it
  -- decompresses to at most as many bytes, which decode to the request.
  pub decode_write_request_iff :
      (compressed : List ℕ) (req : WriteRequest F)
      → (decode_write_request c compressed ≡ ok req) ↔ (
          DeclaresAtMost compressed
          × (body : List ℕ) × (c.decompress_vec compressed ≡ ok body)
          × (length body ≤ max_decompressed_bytes)
          × (c.decode body ≡ ok req))
  decode_write_request_iff compressed req = (
    λ h.
        let d = declared-ok compressed req h in
        let (body, h₁, h₂, h₃) =
          decode_body-ok compressed req (sym (decode-within compressed d) ∙ h) in
        (d, body, h₁, h₂, h₃),
    λ (d, body, h₁, h₂, h₃).
        decode-within compressed d ∙ decode_body-of compressed body req h₁ h₂ h₃,
  )
