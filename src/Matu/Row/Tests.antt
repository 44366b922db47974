-- ===== src/Matu/Row/Tests.antt =====
-- A row that is encoded and decoded.
use example_engine.Prelude.{◌≡◌, refl, true, some, [], ◌∷◌, arith, length}
use example_engine.Prelude.Int.{negsuc}
use example_engine.Matu.Row.{RowData, encode, decode, get16}
use example_engine.Matu.Row.Codec.{Fits, decode-encode, get16-encode}

-- an id of -3, and no mail
abbrev row : RowData
row = record { id = negsuc 2; sex = true; name = 84 ∷ 111 ∷ []; number = 55 ∷ []; email = [] }

encode_row :
    encode row
    ≡ 19 ∷ 0 ∷ 2 ∷ 0 ∷ 1 ∷ 0 ∷ 0 ∷ 0 ∷ 253 ∷ 255 ∷ 255 ∷ 255 ∷ 1 ∷ 84 ∷ 111 ∷ 0 ∷ 55 ∷ 0 ∷ 0 ∷ []
unfolding encode
encode_row = refl

row-Fits : Fits row
row-Fits = record {
  id = omega arith;
  name = (λ e. ground (arith, e), (λ e. ground (arith, e), tt));
  number = (λ e. ground (arith, e), tt);
  email = tt;
  size = omega arith;
}

decode-encode_example : decode (encode row) ≡ some row
decode-encode_example = decode-encode row row-Fits

get16-encode_example : get16 (encode row) ≡ some (length (encode row))
get16-encode_example = get16-encode row row-Fits
