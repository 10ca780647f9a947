-- ===== src/Platform/Bitsery/Cells.antt =====
-- An instance of bitsery's calls on which the templates run: every value is one entry of the buffer.
use structur3d.Prelude.{ℕ, refl, [], ◌∷◌, ok, none, some}
use structur3d.Platform.Memory.{whole}
use structur3d.Platform.Bitsery.{Codec, Bitsery, IsBitsery, ReadsBack}

abbrev cell : Codec ℕ
cell = record {
  write = λ n. ok (n ∷ []);
  read = λ old bs. elim bs [ [] ↦ none | n ∷ rest ↦ some (n, rest) ];
}

abbrev pub cells : Bitsery whole
cells = record { value1b = cell; value4b = cell; float4b = cell; size = cell }

cell-ReadsBack : (n : ℕ) → ReadsBack cell n
cell-ReadsBack n = record { trip = (n ∷ [], refl, λ old rest. refl) }

pub cells-IsBitsery : IsBitsery cells
cells-IsBitsery = record {
  value1b = λ n h. cell-ReadsBack n;
  value4b = λ n h. cell-ReadsBack n;
  float4b = cell-ReadsBack;
  size = λ n h. cell-ReadsBack n;
}
