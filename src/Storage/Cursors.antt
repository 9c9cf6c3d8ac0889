-- ===== src/Storage/Cursors.antt =====
-- The paging cursors of src/sub2api_mcp/repository.py: `_encode_cursor` and `_decode_cursor`. The
-- JSON text of a pair of strings and the URL-safe base64 of its bytes are the standard library's.
pub mod Examples
use sub2_ddq.Prelude.{
  ℕ, ◌+◌, ◌-◌, ◌%◌, ◌<◌, ◌≤◌, zero, suc, Bool, true, false, not, Option, none, some, List, [], ◌∷◌,
  ◌++◌, ltb, leb, ◌==◌, if◌then◌else◌, length, all, Text, ◌≡◌, refl, arith, Option-cases, inl, inr,
  ◌≢◌,
}

-- What `json.loads` gives: a list of two strings, or something else.
pub data JsonValue : Type 0 where
  two_texts : Text → Text → JsonValue
  other : JsonValue

abbrev pub replicate : ℕ → ℕ → List ℕ
replicate zero c = []
replicate (suc n) c = c ∷ replicate n c

-- The character `=`.
abbrev pub pad : ℕ
pad = 61

-- `json` and `base64`, with their documented behaviour: each decodes what it encodes, base64 gives
-- groups of four characters with fewer than four `=`, at the end, and the empty text is no JSON.
pub record Codec : Type 0 where
  pub json_text : Text → Text → List ℕ
  pub json_loads : List ℕ → Option JsonValue
  pub b64encode : List ℕ → Text
  pub b64decode : Text → Option (List ℕ)
  pub json_loads-json_text :
      (a b : Text) → json_loads (json_text a b) ≡ some (JsonValue.two_texts a b)
  pub b64decode-b64encode : (bytes : List ℕ) → b64decode (b64encode bytes) ≡ some bytes
  pub b64encode_padded :
      (bytes : List ℕ)
      → (body : Text) × (k : ℕ) × (b64encode bytes ≡ body ++ replicate k pad)
        × (all (λ c. not (c == pad)) body ≡ true)
        × (k < 4)
        × ((length body + k) % 4 ≡ 0)
  pub b64decode_empty : b64decode [] ≡ some []
  pub json_loads_empty : json_loads [] ≡ none

-- `s.rstrip("=")`
unfoldable pub rstrip_pads : Text → Text
rstrip_pads [] = []
rstrip_pads (c ∷ s) =
    let rest = rstrip_pads s in
    if c == pad then elim rest [ [] ↦ [] | d ∷ t ↦ c ∷ d ∷ t ] else c ∷ rest

-- `cursor + "=" * (-len(cursor) % 4)`
unfoldable pub padded : Text → Text
padded cursor = cursor ++ replicate ((4 - length cursor % 4) % 4) pad

module _ (codec : Codec) where
  open codec use {json_text, json_loads, b64encode, b64decode}

  unfoldable pub encode_cursor : Text → Text → Text
  encode_cursor a b = rstrip_pads (b64encode (json_text a b))

  -- What `json.loads` gives of the bytes, as the two strings.
  abbrev pub two_texts_of : Option JsonValue → Option (Text × Text)
  two_texts_of (some (JsonValue.two_texts a b)) = some (a, b)
  two_texts_of (some JsonValue.other) = none
  two_texts_of none = none

  abbrev pub loaded : Option (List ℕ) → Option (Text × Text)
  loaded none = none
  loaded (some bytes) = two_texts_of (json_loads bytes)

  -- `_decode_cursor`; `none` is INVALID_CURSOR.
  unfoldable pub decode_cursor : Text → Option (Text × Text)
  decode_cursor cursor =
      if ltb 4096 (length cursor) then none else loaded (b64decode (padded cursor))

rstrip_pads_only : (k : ℕ) → rstrip_pads (replicate k pad) ≡ []
unfolding rstrip_pads
rstrip_pads_only zero = refl
rstrip_pads_only (suc k) = rw (rstrip_pads_only k) refl

pub rstrip_pads-append :
    (body : Text) (k : ℕ)
    → all (λ c. not (c == pad)) body ≡ true
    → rstrip_pads (body ++ replicate k pad) ≡ body
unfolding rstrip_pads
rstrip_pads-append [] k h = rstrip_pads_only k
rstrip_pads-append (c ∷ body) k h = ground (arith, rstrip_pads-append body k)

-- The padding that was stripped is put back.
padded-rstrip_pads :
    (body : Text) (k : ℕ)
    → all (λ c. not (c == pad)) body ≡ true
    → k < 4
    → (length body + k) % 4 ≡ 0
    → padded (rstrip_pads (body ++ replicate k pad)) ≡ body ++ replicate k pad
unfolding padded
padded-rstrip_pads body k h small whole =
    let n : (4 - length body % 4) % 4 ≡ k = omega arith in rw (rstrip_pads-append body k h, n) refl

module _ (codec : Codec) where
  -- A cursor of at most 4,096 characters decodes to the two strings that it was made of.
  pub decode_cursor-encode_cursor :
      (a b : Text)
      → length (encode_cursor codec a b) ≤ 4096
      → decode_cursor codec (encode_cursor codec a b) ≡ some (a, b)
  unfolding encode_cursor decode_cursor
  decode_cursor-encode_cursor a b h =
      let (body, k, e, clean, small, whole) = codec.b64encode_padded (codec.json_text a b) in
      let back : padded (encode_cursor codec a b) ≡ codec.b64encode (codec.json_text a b) =
        rw e (padded-rstrip_pads body k clean small whole) in
      ground (
        arith,
        back,
        codec.b64decode-b64encode (codec.json_text a b),
        codec.json_loads-json_text a b,
        h,
      )

  -- No cursor is the empty text, which the listings take for no cursor.
  pub encode_cursor-ne-empty : (a b : Text) → encode_cursor codec a b ≢ []
  unfolding decode_cursor padded
  encode_cursor-ne-empty a b e =
      let nothing : decode_cursor codec [] ≡ none =
        rw (codec.b64decode_empty, codec.json_loads_empty) refl in
      let back = decode_cursor-encode_cursor a b (rw e (omega arith)) in
      let wrong : decode_cursor codec [] ≡ some (a, b) = rw e at back in cc (nothing, wrong)
