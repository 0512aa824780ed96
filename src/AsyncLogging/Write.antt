-- ===== src/AsyncLogging/Write.antt =====
-- What reaches the file: `fwriten` writes a message whole if `fwrite` takes it at once, and otherwise
-- begins again with its first byte at every call.
use cpp_practise.Base.{
  ℕ, zero, suc, ◌+◌, ◌-◌, ◌<◌, List, [], ◌∷◌, ◌++◌, some, ◌≡◌, refl, arith, length, take,
  take_of_ge, append-nil, append_assoc, ap, ◌∙◌, sym,
}
use cpp_practise.LogStream.{FixedBuffer}
use cpp_practise.AsyncLogging.{fwriten_loop, fwriten, content, write_all}

abbrev pub AllPositive : List ℕ → Type 0
AllPositive [] = Unit
AllPositive (k ∷ ks) = (0 < k) × AllPositive ks

abbrev pub sum : List ℕ → ℕ
sum [] = 0
sum (k ∷ ks) = k + sum ks

-- Prefixes of the message, one for each count.
abbrev pub prefixes : List ℕ → List ℕ → List ℕ
prefixes msg [] = []
prefixes msg (k ∷ ks) = take k msg ++ prefixes msg ks

fwriten_loop_lem :
    (msg : List ℕ) (counts : List ℕ) (r : ℕ)
    → AllPositive counts
    → sum counts ≡ r
    → fwriten_loop msg r counts ≡ some (prefixes msg counts)
unfolding fwriten_loop
fwriten_loop_lem msg [] zero h e = refl
fwriten_loop_lem msg [] (suc r) h e = absurd (omega arith)
fwriten_loop_lem msg (zero ∷ ks) r h e = absurd (omega arith)
fwriten_loop_lem msg (suc k ∷ ks) zero h e = absurd (omega arith)
fwriten_loop_lem msg (suc k ∷ ks) (suc r) h e =
    rw (fwriten_loop_lem msg ks (suc r - suc k) h.1 (omega arith))

-- If the calls of `fwrite` take some bytes each, and the length of the message together, `fwriten` ends
-- and the file gets one prefix of the message for each call: the message itself if there is one call,
-- and its beginning again and again if there are more.
pub fwriten_lem :
    (msg : List ℕ) (counts : List ℕ)
    → AllPositive counts
    → sum counts ≡ length msg
    → fwriten msg counts ≡ some (prefixes msg counts)
unfolding fwriten
fwriten_lem msg counts h e = fwriten_loop_lem msg counts (length msg) h e

pub fwriten_at_once : (msg : List ℕ) → fwriten msg (length msg ∷ []) ≡ some msg
unfolding fwriten fwriten_loop
fwriten_at_once [] = refl
fwriten_at_once (x ∷ xs) =
    fwriten_loop_lem (x ∷ xs) (length (x ∷ xs) ∷ []) (length (x ∷ xs)) (omega arith, tt)
      (omega arith)
    ∙ ap some (
        append-nil (take (length (x ∷ xs)) (x ∷ xs))
        ∙ take_of_ge (length (x ∷ xs)) (x ∷ xs) (omega arith))

-- The text of some buffers, one after the other.
abbrev pub texts : List FixedBuffer → List ℕ
texts [] = []
texts (b ∷ bs) = content b ++ texts bs

pub texts-append : (bs cs : List FixedBuffer) → texts (bs ++ cs) ≡ texts bs ++ texts cs
texts-append [] cs = refl
texts-append (b ∷ bs) cs =
    ap (λ t. content b ++ t) (texts-append bs cs)
    ∙ sym (append_assoc (content b) (texts bs) (texts cs))

pub write_all_lem : (bs : List FixedBuffer) → write_all bs ≡ some (texts bs)
unfolding write_all
write_all_lem [] = refl
write_all_lem (b ∷ bs) = rw (fwriten_at_once (content b), write_all_lem bs)
