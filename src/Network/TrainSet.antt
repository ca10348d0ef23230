-- ===== src/Network/TrainSet.antt =====
-- common.h: `init_train_set`. A byte of a picture or a label that is not there is `none`.
use zfl.Base.{
  ℕ, suc, ◌+◌, ◌-◌, ◌*◌, ◌<◌, ◌≡◌, sym, ap, ◌∙◌, ◌⊎◌, inl, inr, true, false, Option, some, ◌>>=◌,
  Bytes, get_elem?, ltb, ◌==◌, ==_iff, Bool-cases, ◌&&◌, if◌then◌else◌, for_loop, for_loop-states,
  passed, passed_next, passed_row, passed_none, passed_all, cells_tabulate_from, arith,
}
use zfl.Common.{Floats, Math}
use zfl.Network.Matrix.{Mat, mat_put}
use zfl.Network.Matrix.Cells.{mat, mat_put-mat, mat_ext}
use zfl.Network.Learn.{mat_alloc}
use zfl.Network.Forward.Rows.{labelled}

-- `IMG_HEIGHT`, `IMG_WIDTH`, `IMG_SIZE` and `OUTPUT`
abbrev pub img_height : ℕ
img_height = 28

abbrev pub img_width : ℕ
img_width = 28

abbrev pub img_size : ℕ
img_size = 784

abbrev pub output : ℕ
output = 10

module _ (floats : Floats) (math : Math (floats.Float)) where
  open floats use {Float, zero_float}
  open math use {one_float, quot_float, of_size}

  abbrev pub pixel_of : ℕ → Float
  pixel_of byte = quot_float (of_size byte) (of_size 255)

  abbrev pub put_pixel : Bytes → ℕ → ℕ → ℕ → Mat floats → Option (Mat floats)
  put_pixel img_data image row col t =
      get_elem? img_data (image * img_size + row * img_width + col) >>= λ byte.
      mat_put floats t image (row * img_width + col) (pixel_of byte)

  -- A label is a signed `char`, so that one from 128 on is no column's.
  abbrev pub put_label : Bytes → ℕ → ℕ → Mat floats → Option (Mat floats)
  put_label label_data image i t = get_elem? label_data image >>= λ label.
      if i == label
      then mat_put floats t image (img_size + label) one_float
      else mat_put floats t image (img_size + i) zero_float

  -- One picture.
  unfoldable pub put_image : Bytes → Bytes → ℕ → Mat floats → Option (Mat floats)
  put_image img_data label_data image t =
      for_loop img_height (λ row t1. for_loop img_width (put_pixel img_data image row) t1) t
      >>= for_loop output (put_label label_data image)

  module _ (fresh : ℕ → ℕ → Float) where
    unfoldable pub init_train_set : Bytes → Bytes → ℕ → Option (Mat floats)
    init_train_set img_data label_data n_images =
        for_loop n_images (put_image img_data label_data)
          (mat_alloc floats math fresh n_images (img_size + 10))

  -- Pictures as functions of the number of the picture and the place.
  module _ (pixels labels : ℕ → ℕ) where
    abbrev pub pixel_values : ℕ → ℕ → Float
    pixel_values image j = pixel_of (pixels (image * img_size + j))

    abbrev pub label_values : ℕ → ℕ → Float
    label_values image i = if i == labels image then one_float else zero_float

    abbrev filled : ℕ → ℕ → Float
    filled image j =
        if ltb j img_size then pixel_values image j else label_values image (j - img_size)

    filled_pixel : (image j : ℕ) → j < img_size → pixel_values image j ≡ filled image j
    filled_pixel image j h = ground arith

    filled_label : (image i : ℕ) → label_values image i ≡ filled image (img_size + i)
    filled_label image i =
        ap label (omega arith)
        ∙ sym (behind i (pixel_values image (img_size + i)) (label (img_size + i - img_size)))
      where
        label : ℕ → Float
        label k = label_values image k

        behind : (i : ℕ) (p q : Float) → (if ltb (img_size + i) img_size then p else q) ≡ q
        behind i p q = ground arith

    module _ (img_data label_data : Bytes) (n : ℕ)
        (has_pixels : (k : ℕ) → k < n * img_size → get_elem? img_data k ≡ some (pixels k))
        (has_labels : (k : ℕ) → k < n → get_elem? label_data k ≡ some (labels k)) where
      put_next :
          (f : ℕ → ℕ → Float) (image k : ℕ) (x : Float)
          → image < n
          → k < img_size + 10
          → x ≡ filled image k
          → mat_put floats (mat floats n (img_size + 10) (passed f filled image k)) image k x
            ≡ some (mat floats n (img_size + 10) (passed f filled image (suc k)))
      put_next f image k x hi hk e =
          mat_put-mat floats n (img_size + 10) (passed f filled image k) image k x hi hk
          ∙ ap some (
              mat_ext floats n (img_size + 10) _ _ (λ a b ha hb.
                ap (λ v. if (a == image) && (b == k) then v else passed f filled image k a b) e
                ∙ passed_next f filled image k a b))

      abbrev state : (ℕ → ℕ → Float) → ℕ → ℕ → Mat floats
      state f image k = mat floats n (img_size + 10) (passed f filled image k)

      put_pixels :
          (f : ℕ → ℕ → Float) (image row : ℕ)
          → image < n
          → row < img_height
          → for_loop img_width (put_pixel img_data image row) (state f image (row * img_width))
            ≡ some (state f image (suc row * img_width))
      put_pixels f image row hi hr =
          ap (for_loop img_width (put_pixel img_data image row)) (ap (state f image) (omega arith))
          ∙ for_loop-states img_width (put_pixel img_data image row)
              (λ col. state f image (row * img_width + col))
              (λ col hc.
                ap
                  (λ o. o >>= λ byte.
                    mat_put floats (state f image (row * img_width + col)) image
                      (row * img_width + col) (pixel_of byte))
                  (ap (get_elem? img_data) (omega arith)
                    ∙ has_pixels (image * img_size + (row * img_width + col)) (omega arith))
                ∙ put_next f image (row * img_width + col) _ hi (omega arith)
                    (filled_pixel image (row * img_width + col) (omega arith))
                ∙ ap (λ k. some (state f image k)) (omega arith))
          ∙ ap (λ k. some (state f image k)) (omega arith)

      at_column :
          (k l : ℕ)
          → k ≡ l
          → (x : Float) (m : Mat floats) (image : ℕ)
          → mat_put floats m image (img_size + l) x ≡ mat_put floats m image (img_size + k) x
      at_column k l e x m image = ap (λ c. mat_put floats m image (img_size + c) x) (sym e)

      put_label_cell :
          (i label image : ℕ) (m : Mat floats)
          → (if i == label
              then mat_put floats m image (img_size + label) one_float
              else mat_put floats m image (img_size + i) zero_float)
            ≡ mat_put floats m image (img_size + i) (if i == label then one_float else zero_float)
      put_label_cell i label image m = split (Bool-cases (i == label))
        where
          split :
              ((i == label) ≡ true) ⊎ ((i == label) ≡ false)
              → (if i == label
                  then mat_put floats m image (img_size + label) one_float
                  else mat_put floats m image (img_size + i) zero_float)
                ≡ mat_put floats m image
                    (img_size + i)
                    (if i == label then one_float else zero_float)
          split (inl e) = rw (e) (at_column i label ((==_iff i label).0 e) one_float m image)
          split (inr e) = rw (e)

      put_labels :
          (f : ℕ → ℕ → Float) (image : ℕ)
          → image < n
          → for_loop output (put_label label_data image) (state f image (img_height * img_width))
            ≡ some (state f (suc image) 0)
      put_labels f image hi =
          for_loop-states output (put_label label_data image) (λ i. state f image (img_size + i))
            (λ i h.
              ap
                (λ o. o >>= λ label.
                  if i == label
                  then mat_put floats (state f image (img_size + i)) image (img_size + label)
                      one_float
                  else mat_put floats (state f image (img_size + i)) image (img_size + i)
                      zero_float)
                (has_labels image hi)
              ∙ put_label_cell i (labels image) image (state f image (img_size + i))
              ∙ put_next f image (img_size + i) _ hi (omega arith) (filled_label image i)
              ∙ ap (λ k. some (state f image k)) (omega arith))
          ∙ ap some (
              mat_ext floats n (img_size + 10) _ _
                (λ a b ha hb. passed_row f filled (img_size + 10) image a b hb))

      put_image-state :
          (f : ℕ → ℕ → Float) (image : ℕ)
          → image < n
          → put_image img_data label_data image (state f image 0) ≡ some (state f (suc image) 0)
      unfolding put_image
      put_image-state f image hi =
          ap (λ o. o >>= for_loop output (put_label label_data image))
            (for_loop-states img_height _ (λ row. state f image (row * img_width))
              (λ row hr. put_pixels f image row hi hr))
          ∙ put_labels f image hi

      -- Where `n` pictures and labels are there, `init_train_set` returns: row i of the matrix has the
      -- bytes of picture i divided by 255, and behind them a 1 in the column of label i and 0 in the
      -- other nine.
      pub init_train_set-labelled :
          (fresh : ℕ → ℕ → Float)
          → init_train_set fresh img_data label_data n
            ≡ some (labelled floats math n img_size 10 pixel_values label_values)
      unfolding init_train_set
      init_train_set-labelled fresh =
          ap (for_loop n (put_image img_data label_data)) (
            ap (λ l. record { rows = n; cols = img_size + 10; elements = l })
              (cells_tabulate_from n (img_size + 10) (fresh (n * (img_size + 10))))
            ∙ mat_ext floats n (img_size + 10) _ _ (λ a b ha hb. passed_none held filled a b))
          ∙ for_loop-states n (put_image img_data label_data) (λ k. state held k 0)
              (put_image-state held)
          ∙ ap some
              (mat_ext floats n (img_size + 10) _ _ (λ a b ha hb. passed_all held filled n a b ha))
        where
          held : ℕ → ℕ → Float
          held i j = fresh (n * (img_size + 10)) (i * (img_size + 10) + j)
