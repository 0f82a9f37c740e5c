-- ===== src/Program/Download.antt =====
-- What a client receives of a program of src/program.hpp: `get_data`, called for as long as
-- `has_more_data` holds, as src/http.hpp does on each completed write.
use lserver.Prelude.{
  if◌then◌else◌, sub_word, ℕ, zero, suc, ◌+◌, ◌-◌, ◌^◌, ◌≤◌, ◌<◌, ◌≡◌, ◌∙◌, refl, true, false, none,
  some, List, [], ◌∷◌, ◌++◌, arith, All, ltb, take, length-take, length-append, dec_lt, length-drop,
  drop,
}
use lserver.DynamicString
use lserver.DynamicString.{DynamicString, IsValid, size}
use lserver.Program.{Program, send_buffer_sz, has_more_data, get_data}

-- The sizes of the buffers that are sent, until `has_more_data` fails or the fuel is out.
pub drain : ℕ → Program → DynamicString → List ℕ
drain zero p d = []
drain (suc fuel) p d = elim (has_more_data p) [
  | none ↦ []
  | some false ↦ []
  | some true ↦ elim (get_data p d) [ none ↦ [] | some (q, d') ↦ size d' ∷ drain fuel q d' ]
]

pub sum : List ℕ → ℕ
sum [] = 0
sum (x ∷ xs) = x + sum xs

-- The next chunk.
abbrev chunk : ℕ → ℕ
chunk n = if ltb n send_buffer_sz then n else send_buffer_sz

get_data_lem :
    (p : Program) (d : DynamicString)
    → IsValid d
    → send_buffer_sz ≤ d.capacity
    → 0 < p.download_size
    → p.download_size < 2 ^ 64
    → (q : Program) × (d' : DynamicString) × (get_data p d ≡ some (q, d'))
      × (q.finished ≡ p.finished)
      × (q.download_size ≡ p.download_size - chunk p.download_size)
      × (size d' ≡ chunk p.download_size)
      × IsValid d'
      × (d'.capacity ≡ d.capacity)
unfolding get_data DynamicString.fill
get_data_lem p d v room pos word =
    let n = chunk p.download_size in
    let memory = d.written ++ d.unused in
    (
      record p { download_size = sub_word p.download_size n },
      record d { written = take n memory; unused = drop n memory },
      ground arith,
      refl,
      ground arith,
      ground (arith, length-take n memory, length-append d.written d.unused),
      ground (arith, length-take n memory, length-drop n memory, length-append d.written d.unused),
      refl,
    )

loop_sends :
    (fuel : ℕ) (p q : Program) (d d' : DynamicString)
    → p.finished ≡ true
    → 0 < p.download_size
    → get_data p d ≡ some (q, d')
    → drain (suc fuel) p d ≡ size d' ∷ drain fuel q d'
unfolding drain
loop_sends fuel p q d d' f pos e = ground arith

loop_stops :
    (fuel : ℕ) (p : Program) (d : DynamicString)
    → p.finished ≡ true
    → p.download_size ≡ 0
    → drain fuel p d ≡ []
unfolding drain
loop_stops zero p d f e = refl
loop_stops (suc fuel) p d f e = ground arith

-- When a program has finished, fetching data for as long as there is more, into a valid buffer of
-- at least 64 KiB, sends chunks that add up to the download size, none of them empty and none above
-- 64 KiB, if the download size is a word and the fuel is no smaller.
pub drain_sends :
    (fuel : ℕ) (p : Program) (d : DynamicString)
    → p.finished ≡ true
    → IsValid d
    → send_buffer_sz ≤ d.capacity
    → p.download_size < 2 ^ 64
    → p.download_size ≤ fuel
    → (sum (drain fuel p d) ≡ p.download_size)
      × All (λ n. (0 < n) × (n ≤ send_buffer_sz)) (drain fuel p d)
unfolding sum
drain_sends zero p d f v room word h = unfold drain in (omega arith, tt)
drain_sends (suc fuel) p d f v room word h = elim (dec_lt 0 p.download_size) [
  | no finished ↦ rw (loop_stops (suc fuel) p d f (omega arith)) (omega arith, tt)
  | yes more ↦
      let (q, d', e, same, left, sent, v', cap) = get_data_lem p d v room more word in
      let (total, bounds) =
        drain_sends fuel q d' (same ∙ f) v' (omega arith) (ground (arith, left))
          (ground (arith, left)) in
      rw (loop_sends fuel p q d d' f more e)
        (ground (arith, left, sent, total), ((ground (arith, sent), ground (arith, sent)), bounds))
]
