-- ===== src/Network/Forward/Repeat.antt =====
-- nn.h: one forward pass after another.
use zfl.Base.{ℕ, ◌≡◌, refl, ap, ◌∙◌, List, [], ◌∷◌}
use zfl.Common.{Floats, Math}
use zfl.Network.Forward.{last_row}
use zfl.Network.Forward.Layers.{row}
use zfl.Network.Forward.Spec.{Layer, held_of, is_last, layer_output, pass}

module _ (floats : Floats) (math : Math (floats.Float)) where
  open floats use {Float}

  pub is_last-pass :
      (n : ℕ) (x : ℕ → Float) (ls : List (Layer floats))
      → is_last floats math (pass floats math n x ls) ≡ is_last floats math ls
  is_last-pass n x [] = refl
  is_last-pass n x (l ∷ ls) = refl

  -- A pass forgets the one before.
  pub pass-pass :
      (n : ℕ) (x y : ℕ → Float) (ls : List (Layer floats))
      → pass floats math n y (pass floats math n x ls) ≡ pass floats math n y ls
  pass-pass n x y [] = refl
  pass-pass n x y (l ∷ ls) =
      let z = layer_output floats math (is_last floats math ls) n x l in
      ap
        (λ last.
          record l { held = layer_output floats math last n y l }
          ∷ pass floats math l.size (layer_output floats math last n y l)
              (pass floats math l.size z ls))
        (is_last-pass l.size z ls)
      ∙ ap
          (λ rest.
            record l { held = layer_output floats math (is_last floats math ls) n y l } ∷ rest)
          (pass-pass l.size z (layer_output floats math (is_last floats math ls) n y l) ls)

  abbrev pub last_size : ℕ → List (Layer floats) → ℕ
  last_size n [] = n
  last_size n (l ∷ ls) = last_size l.size ls

  abbrev pub last_held : (ℕ → Float) → List (Layer floats) → ℕ → Float
  last_held x [] = x
  last_held x (l ∷ ls) = last_held l.held ls

  -- What the last layer puts out for the input `x`.
  abbrev pub predict : ℕ → (ℕ → Float) → List (Layer floats) → ℕ → Float
  predict n x ls = last_held x (pass floats math n x ls)

  pub last_size-pass :
      (n k : ℕ) (x : ℕ → Float) (ls : List (Layer floats))
      → last_size k (pass floats math n x ls) ≡ last_size k ls
  last_size-pass n k x [] = refl
  last_size-pass n k x (l ∷ ls) = last_size-pass l.size l.size _ ls

  pub last_row-held_of :
      (n : ℕ) (x : ℕ → Float) (ls : List (Layer floats))
      → last_row floats (row floats math n x) (held_of floats math ls)
        ≡ row floats math (last_size n ls) (last_held x ls)
  last_row-held_of n x [] = refl
  last_row-held_of n x (l ∷ ls) = last_row-held_of l.size l.held ls

  pub predict-pass :
      (n : ℕ) (x y : ℕ → Float) (ls : List (Layer floats))
      → predict n y (pass floats math n x ls) ≡ predict n y ls
  predict-pass n x y ls = ap (last_held y) (pass-pass n x y ls)

  -- The sizes of the layers, which a pass keeps.
  abbrev pub layer_sizes : List (Layer floats) → List ℕ
  layer_sizes [] = []
  layer_sizes (l ∷ ls) = l.size ∷ layer_sizes ls

  pub layer_sizes-pass :
      (n : ℕ) (x : ℕ → Float) (ls : List (Layer floats))
      → layer_sizes (pass floats math n x ls) ≡ layer_sizes ls
  layer_sizes-pass n x [] = refl
  layer_sizes-pass n x (l ∷ ls) = ap (λ sizes. l.size ∷ sizes) (layer_sizes-pass l.size _ ls)
