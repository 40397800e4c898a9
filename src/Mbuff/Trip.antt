-- ===== src/Mbuff/Trip.antt =====
-- Bytes that go into an Mbuff with `append_from_buffer` and come back with `copy_to_buffer` (mbuff.hh).
use u_depot.Base.{
  ℕ, ◌-◌, ◌≤◌, ◌≡◌, sym, ap, ◌∙◌, some, List, ◌++◌, min, arith, length, take, drop, take-all,
  drop-all, drop-append, take-append, append_nil,
}
use u_depot.Mbuff.{Mbuff, append_avail_size}
use u_depot.Mbuff.Append.{append_from_buffer}
use u_depot.Mbuff.Iterate.{copy_to_buffer}
use u_depot.Mbuff.Valid.{IsValid, contents, length-chain_bytes}
use u_depot.Mbuff.AppendFills.{append_from_buffer_lem}
use u_depot.Mbuff.IterateReads.{copy_to_buffer_lem}

behind_front : (xs ys : List ℕ) → drop (length xs) (xs ++ ys) ≡ ys
behind_front xs ys =
    let none_left : length xs - length xs ≡ 0 = omega arith in
    drop-append (length xs) xs ys
    ∙ (ap (λ x. x ++ drop (length xs - length xs) ys) (drop-all (length xs) xs (omega arith))
        ∙ ap (λ k. drop k ys) none_left)

-- When a valid Mbuff has space for a source, `append_from_buffer` takes all of it,
-- `copy_to_buffer` gives the source back from where the data ended before, and it still gives
-- the data that was there.
pub copy_to_buffer-append_from_buffer :
    (m : Mbuff) (src : List ℕ)
    → IsValid m
    → length src ≤ append_avail_size m
    → (m' : Mbuff) × (append_from_buffer m src ≡ some (m', length src))
      × (copy_to_buffer m' m.valid_size (length src) ≡ src)
      × (copy_to_buffer m' 0 m.valid_size ≡ copy_to_buffer m 0 m.valid_size)
copy_to_buffer-append_from_buffer m src v fits =
    let (m', done, v', bytes) = append_from_buffer_lem src m v in
    let all : min (length src) (append_avail_size m) ≡ length src = omega (arith, fits) in
    let whole : contents m' ≡ contents m ++ src =
      bytes ∙ ap (λ x. contents m ++ x) (take-all (append_avail_size m) src fits) in
    let size : length (contents m) ≡ m.valid_size =
      omega (arith, length-chain_bytes m.nodes v.fits, v.sized) in
    let nothing_more : m.valid_size - length (contents m) ≡ 0 = omega (arith, size) in
    (
      m',
      done ∙ ap (λ k. some (m', k)) all,
      copy_to_buffer_lem m' m.valid_size (length src) v'
          ∙ (ap (λ x. take (length src) (drop m.valid_size x)) whole
              ∙ (ap (λ k. take (length src) (drop k (contents m ++ src))) (sym size)
                  ∙ (ap (take (length src)) (behind_front (contents m) src)
                      ∙ take-all (length src) src (omega arith)))),
      copy_to_buffer_lem m' 0 m.valid_size v'
          ∙ (ap (take m.valid_size) whole
              ∙ (take-append m.valid_size (contents m) src
                  ∙ (ap (λ k. take m.valid_size (contents m) ++ take k src) nothing_more
                      ∙ (append_nil (take m.valid_size (contents m))
                          ∙ sym (copy_to_buffer_lem m 0 m.valid_size v))))),
    )
