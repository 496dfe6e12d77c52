-- ===== src/Tests/Library.antt =====
-- A standard library for the examples: texts come without white space around them and credentials
-- are not encoded; forms are taken apart as `parse_qs` does with no escapes; five numbers are read.
use Prim.Native.String.{count}
use llmbus.Shared.{ℕ, String, true, Option, none, some, List, [], ◌∷◌, map, lookup}
use llmbus.Shared.Int.{ℤ, pos}
use llmbus.Python.Exc.{answered}
use llmbus.Python.Texts.{Texts, FormValues, Parts, partition, split}
use llmbus.Tests.Host.{host}

abbrev numbers : List (String × ℕ)
numbers = ("3", 3) ∷ ("2", 2) ∷ ("5", 5) ∷ ("60", 60) ∷ ("39", 39) ∷ []

abbrev as_int : Option ℕ → Option ℤ
as_int none = none
as_int (some n) = some (pos n)

abbrev pub form_field : Parts → String × FormValues
form_field (name, found, value) = (name, record { first = value; more = [] })

abbrev pub form_fields : List String → List (String × FormValues)
form_fields parts = map (λ part. form_field (partition b'=' part)) parts

abbrev pub library : Texts host.Float
library = record {
  strip = λ s. s;
  lower = λ s. s;
  int_of = λ s. as_int (lookup s numbers);
  float_of = λ s. lookup s numbers;
  is_finite = λ x. true;
  quote = λ s. s;
  b64decode = λ s. answered s;
  parse_qs = λ body. form_fields (split b'&' body);
  Bytes = String;
  byte_count = count;
  decode_replace = λ s. s;
  repr_int = λ n. "n";
  repr_float = λ x. "x";
}
