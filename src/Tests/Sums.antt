-- ===== src/Tests/Sums.antt =====
-- A sum write of a text and of a structure to the two variables of a test server.
use pyads_agile.Prelude.{ℕ, ◌≡◌, refl, arith, List, [], ◌∷◌, ◌++◌, replicate, none, ok}
use pyads_agile.Python.Bytes.{Bytes}
use pyads_agile.Python.Utf8
use pyads_agile.Python.Utf8.{Text}
use pyads_agile.Structure.Value.{text_value}
use pyads_agile.TestServer.Store.{find}
use pyads_agile.TestServer.Advanced.{read_write_value}
use pyads_agile.TestServer.Advanced.Sums.{written}
use pyads_agile.Client.Sums.{
  string_symbol, SymbolInfo, Written, plain, structured, sum_write_buffer,
}
use pyads_agile.Client.Sums.Encodes.{Encoded, structure_bytes, string_bytes, single}
use pyads_agile.Client.Sums.Batches.{batch_of, sum_write_buffer-stored}
use pyads_agile.Tests.Handles.{no_floats}
use pyads_agile.Tests.Server.{two_variables, stored_first, stored_second}

abbrev symbol_at : ℕ → SymbolInfo
symbol_at offset = record {
  group = 0x4020;
  offset = offset;
  size = 4;
  data_type = string_symbol none;
}

-- a text whose character takes two bytes
umlaut : Utf8.encode (228 ∷ []) ≡ ok (195 ∷ 164 ∷ [])
unfolding Utf8.encode
umlaut = refl

text_umlaut : Encoded no_floats
text_umlaut = record {
  info = symbol_at 4;
  value = plain (text_value (228 ∷ []));
  bytes = (195 ∷ 164 ∷ []) ++ replicate 2 0;
  encodes =
      string_bytes none (text_value (228 ∷ [])) _ refl
        (single none 4 (228 ∷ []) (195 ∷ 164 ∷ []) tt umlaut (omega arith));
}

four_bytes : Encoded no_floats
four_bytes = record {
  info = symbol_at 8;
  value = structured (9 ∷ 8 ∷ 7 ∷ 6 ∷ []);
  bytes = 9 ∷ 8 ∷ 7 ∷ 6 ∷ [];
  encodes = structure_bytes (9 ∷ 8 ∷ 7 ∷ 6 ∷ []) refl;
}

abbrev two_values : List (Encoded no_floats)
two_values = text_umlaut ∷ four_bytes ∷ []

abbrev symbols : List (Text × SymbolInfo)
symbols = (98 ∷ [], symbol_at 8) ∷ (97 ∷ [], symbol_at 4) ∷ []

abbrev values : List (Text × Written)
values = (97 ∷ [], plain (text_value (228 ∷ []))) ∷ (98 ∷ [], structured (9 ∷ 8 ∷ 7 ∷ 6 ∷ [])) ∷ []

sum_write_buffer-stored_example :
    (buf : Bytes) × (sum_write_buffer no_floats symbols values ≡ ok buf)
    × let (r, h') = read_write_value 0xF081 2 0 buf two_variables in
      (r ≡ ok (replicate 8 0))
      × ((k p : ℕ)
          → find k p h'.store ≡ written (batch_of two_values) k p (find k p two_variables.store))
unfolding text_umlaut four_bytes
sum_write_buffer-stored_example =
    sum_write_buffer-stored symbols values two_values 0 two_variables refl
      (
        record { group = omega arith; offset = omega arith; size = omega arith },
        (record { group = omega arith; offset = omega arith; size = omega arith }, tt),
      )
      ((_, stored_first), ((_, stored_second), tt))
