-- ===== src/Storage/Cursors/Examples.antt =====
-- A codec with the behaviour that the cursors ask for, and a cursor of it.
use sub2_ddq.Prelude.{
  ℕ, suc, zero, ◌+◌, ◌-◌, ◌*◌, ◌/◌, ◌%◌, ◌<◌, true, not, Option, none, some, List, [], ◌∷◌, ◌++◌,
  map, length, take, all, keep_if, Text, ◌==◌, ◌≡◌, refl, ap, arith, ◌∙◌,
}
use sub2_ddq.Storage.Cursors.{
  Codec, JsonValue, replicate, pad, encode_cursor, decode_cursor, rstrip_pads-append,
  decode_cursor-encode_cursor,
}

abbrev drop : ℕ → List ℕ → List ℕ
drop zero xs = xs
drop (suc n) [] = []
drop (suc n) (x ∷ xs) = drop n xs

take-append : (a b : List ℕ) → take (length a) (a ++ b) ≡ a
take-append [] b = refl
take-append (x ∷ a) b = ap (λ (r : List ℕ). x ∷ r) (take-append a b)

drop-append : (a b : List ℕ) → drop (length a) (a ++ b) ≡ b
drop-append [] b = refl
drop-append (x ∷ a) b = drop-append a b

-- The length of the first text, and both texts.
abbrev pub toy_json : Text → Text → List ℕ
toy_json a b = length a ∷ (a ++ b)

abbrev toy_loads : List ℕ → Option JsonValue
toy_loads [] = none
toy_loads (n ∷ rest) = some (JsonValue.two_texts (take n rest) (drop n rest))

pub toy_loads-toy_json : (a b : Text) → toy_loads (toy_json a b) ≡ some (JsonValue.two_texts a b)
toy_loads-toy_json a b = rw (take-append a b, drop-append a b) refl

abbrev double : ℕ → ℕ
double n = 2 * n

abbrev pad_count : ℕ → ℕ
pad_count n = (4 - n % 4) % 4

-- Even numbers, of which none is `=`, and the padding.
abbrev toy_encode : List ℕ → Text
toy_encode bytes = map double bytes ++ replicate (pad_count (length bytes)) pad

abbrev toy_decode : Text → Option (List ℕ)
toy_decode s = some (map (λ c. c / 2) (keep_if (λ c. not (c == pad)) s))

clean : (bytes : List ℕ) → all (λ c. not (c == pad)) (map double bytes) ≡ true
clean [] = refl
clean (b ∷ bytes) = ground (arith, clean bytes)

unpadded : (k : ℕ) → keep_if (λ c. not (c == pad)) (replicate k pad) ≡ []
unpadded zero = refl
unpadded (suc k) = unpadded k

halved :
    (bytes : List ℕ) (k : ℕ)
    → map (λ c. c / 2) (keep_if (λ c. not (c == pad)) (map double bytes ++ replicate k pad)) ≡ bytes
halved [] k = rw (unpadded k) refl
halved (b ∷ bytes) k = ground (arith, halved bytes k)

pub toy_decode-toy_encode : (bytes : List ℕ) → toy_decode (toy_encode bytes) ≡ some bytes
toy_decode-toy_encode bytes = rw (halved bytes (pad_count (length bytes))) refl

length-doubled : (bytes : List ℕ) → length (map double bytes) ≡ length bytes
length-doubled [] = refl
length-doubled (b ∷ bytes) = ap suc (length-doubled bytes)

pub toy_padded :
    (bytes : List ℕ)
    → (body : Text) × (k : ℕ) × (toy_encode bytes ≡ body ++ replicate k pad)
      × (all (λ c. not (c == pad)) body ≡ true)
      × (k < 4)
      × ((length body + k) % 4 ≡ 0)
toy_padded bytes = (
  map double bytes,
  pad_count (length bytes),
  refl,
  clean bytes,
  omega arith,
  omega (arith, length-doubled bytes),
)

abbrev pub toy_codec : Codec
toy_codec = record {
  json_text = toy_json;
  json_loads = toy_loads;
  b64encode = toy_encode;
  b64decode = toy_decode;
  json_loads-json_text = toy_loads-toy_json;
  b64decode-b64encode = toy_decode-toy_encode;
  b64encode_padded = toy_padded;
  b64decode_empty = refl;
  json_loads_empty = refl;
}

-- A cursor is as long as its JSON text.
pub length-encode_cursor :
    (a b : Text) → length (encode_cursor toy_codec a b) ≡ suc (length (a ++ b))
unfolding encode_cursor
length-encode_cursor a b =
    let bytes = toy_json a b in
    ap (λ (s : Text). length s)
      (rstrip_pads-append (map double bytes) (pad_count (length bytes)) (clean bytes))
    ∙ length-doubled bytes

decode_cursor-encode_cursor_example :
    decode_cursor toy_codec (encode_cursor toy_codec (1 ∷ 2 ∷ []) (7 ∷ []))
    ≡ some (1 ∷ 2 ∷ [], 7 ∷ [])
decode_cursor-encode_cursor_example =
    decode_cursor-encode_cursor toy_codec (1 ∷ 2 ∷ []) (7 ∷ [])
      (omega (arith, length-encode_cursor (1 ∷ 2 ∷ []) (7 ∷ [])))
