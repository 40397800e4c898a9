-- ===== src/Store/Elsewhere.antt =====
-- src/include/uDepot/io/helpers.hh: a write leaves alone what lies outside of its bytes.
use u_depot.Base.{
  ℕ, ◌+◌, ◌-◌, ◌≤◌, ◌≡◌, refl, sym, ap, ap₂, ◌∙◌, ◌⊎◌, inl, inr, List, [], ◌++◌, take, drop, length,
  length-append, length-take, length-drop, take-append, drop-append, take-take, drop-take,
  drop-drop, drop-all, append_nil, leb, if◌then◌else◌, Option-cases, arith,
}
use u_depot.Store.{Device, pread_full, pwrite_full, got, fault, enodata}

over : ℕ → List ℕ → List ℕ → List ℕ
over offset written bytes = take offset bytes ++ (written ++ drop (offset + length written) bytes)

module _ (offset : ℕ) (written bytes : List ℕ) (fits : offset + length written ≤ length bytes) where
  length-front : length (take offset bytes) ≡ offset
  length-front = omega (arith, length-take offset bytes)

  length-over : length (over offset written bytes) ≡ length bytes
  unfolding over
  length-over =
      let behind = drop (offset + length written) bytes in
      omega (
        arith,
        length-front,
        length-append (take offset bytes) (written ++ behind),
        length-append written behind,
        length-drop (offset + length written) bytes,
      )

  take-over : (n : ℕ) → n ≤ offset → take n (over offset written bytes) ≡ take n bytes
  unfolding over
  take-over n before =
      let rest = written ++ drop (offset + length written) bytes in
      let e : n - length (take offset bytes) ≡ 0 = omega (arith, length-front) in
      take-append n (take offset bytes) rest
      ∙ ap₂ (λ a k. a ++ take k rest) (take-take n offset bytes before) e
      ∙ append_nil (take n bytes)

  drop-over :
      (n : ℕ) → offset + length written ≤ n → drop n (over offset written bytes) ≡ drop n bytes
  unfolding over
  drop-over n behind =
      let front = take offset bytes in
      let rest = drop (offset + length written) bytes in
      let k = n - length front in
      let none_left : drop n front ≡ [] = drop-all n front (omega (arith, length-front)) in
      let none_written : drop k written ≡ [] = drop-all k written (omega (arith, length-front)) in
      let at_end : offset + length written + (k - length written) ≡ n =
        omega (arith, length-front) in
      drop-append n front (written ++ rest)
      ∙ ap (λ l. l ++ drop k (written ++ rest)) none_left
      ∙ drop-append k written rest
      ∙ ap (λ l. l ++ drop (k - length written) rest) none_written
      ∙ drop-drop (k - length written) (offset + length written) bytes
      ∙ ap (λ j. drop j bytes) at_end

  region-over :
      (at size : ℕ)
      → (at + size ≤ offset) ⊎ (offset + length written ≤ at)
      → take size (drop at (over offset written bytes)) ≡ take size (drop at bytes)
  region-over at size (inl before) =
      sym (drop-take at size (over offset written bytes))
      ∙ ap (drop at) (take-over (at + size) before)
      ∙ drop-take at size bytes
  region-over at size (inr behind) = ap (take size) (drop-over at behind)

pub length-pwrite_full :
    (dev : Device) (offset : ℕ) (written : List ℕ)
    → offset + length written ≤ length dev.bytes
    → length (pwrite_full dev offset written).bytes ≡ length dev.bytes
unfolding pwrite_full over
length-pwrite_full dev offset written fits = length-over offset written dev.bytes fits

-- A read that has no byte in common with a write within the device gives what it gave before.
pub pread_full-elsewhere :
    (dev : Device) (offset : ℕ) (written : List ℕ) (at size : ℕ)
    → offset + length written ≤ length dev.bytes
    → (at + size ≤ offset) ⊎ (offset + length written ≤ at)
    → pread_full (pwrite_full dev offset written) at size ≡ pread_full dev at size
unfolding pread_full pwrite_full over
pread_full-elsewhere dev offset written at size fits apart =
    let e = region-over offset written dev.bytes fits at size apart in
    let l = length-over offset written dev.bytes fits in
    elim (Option-cases (dev.read_fault at size)) [
      | inr (rc, bad) ↦ rw (pread_full, bad) refl
      | inl well ↦
          rw (pread_full, well)
            (ap₂ (λ n b. if leb (at + size) n then got b else fault enodata) l e)
    ]
