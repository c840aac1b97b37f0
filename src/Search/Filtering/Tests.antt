-- ===== src/Search/Filtering/Tests.antt =====
-- src/search/vector-filtering.ts: batches of three values, and the theorem at them.
use edgemneme.Base.{◌≡◌, refl, List, [], ◌∷◌, ◌++◌, ok, err, Text, codes, concat, utf8_length, All}
use edgemneme.Search.Filtering.{value_too_large, batch_from, batch_string_values}
use edgemneme.Search.Filtering.Batches.{Fits, batch_string_values-joins}

-- The serialisation of texts that need no escapes.
abbrev quoted : List Text → Text
quoted [] = []
quoted (v ∷ []) = b'"' ∷ v ++ b'"' ∷ []
quoted (v ∷ w ∷ values) = b'"' ∷ v ++ b'"' ∷ b',' ∷ quoted (w ∷ values)

abbrev json : List Text → Text
json values = b'[' ∷ quoted values ++ b']' ∷ []

abbrev values : List Text
values = codes "r1" ∷ codes "r2" ∷ codes "r3" ∷ []

abbrev batches : List (List Text)
batches = (codes "r1" ∷ codes "r2" ∷ []) ∷ (codes "r3" ∷ []) ∷ []

batch_test : batch_string_values json values 9 ≡ ok batches
unfolding batch_string_values batch_from utf8_length
batch_test = refl

large_test : batch_string_values json values 3 ≡ err value_too_large
unfolding batch_string_values batch_from utf8_length
large_test = refl

batch_string_values-joins_example : (concat batches ≡ values) × All (Fits json 9) batches
batch_string_values-joins_example = batch_string_values-joins json 9 values batches batch_test
