-- ===== src/Orchestrator/Collect/Reporters.antt =====
-- orchestrator/phases/collect.rs: the generators that report in a round, and their handles.
use mathlib.Core.List.{Permᴰ}
use mathlib.Core.List.Permᴰ
use creo_bench.Prelude.{
  ◌<◌, ◌≡◌, refl, ap, subst, ◌⊎◌, inl, inr, String, List, [], ◌∷◌, ◌++◌, length,
}
use creo_bench.Tracker.{IntervalReport}
use creo_bench.Orchestrator.Collect.{GeneratorUpdate, interval_report, finished, GeneratorHandle}

-- A handle whose next update is a report.
pub record Reporter : Type 0 where
  pub address : String
  pub report : IntervalReport
  pub later : List GeneratorUpdate

abbrev pub after : Reporter → GeneratorHandle
after r = record { address = r.address; receiver = r.later }

abbrev pub handles_after : List Reporter → List GeneratorHandle
handles_after [] = []
handles_after (r ∷ rs) = after r ∷ handles_after rs

abbrev pub reports_of : List Reporter → List IntervalReport
reports_of [] = []
reports_of (r ∷ rs) = r.report ∷ reports_of rs

-- The report of a handle, if one comes next.
abbrev pub reporter_of : GeneratorHandle → List GeneratorUpdate → List Reporter
reporter_of h [] = []
reporter_of h (interval_report r ∷ later) =
    record { address = h.address; report = r; later = later } ∷ []
reporter_of h (finished ∷ later) = []

-- The generators that report next; the others have finished or are disconnected.
abbrev pub reporters : List GeneratorHandle → List Reporter
reporters [] = []
reporters (h ∷ hs) = reporter_of h h.receiver ++ reporters hs

abbrev pub HasUpdate : GeneratorHandle → Type 0
HasUpdate h = 0 < length h.receiver

-- A generator at this address is disconnected.
abbrev pub Disconnected : String → List GeneratorHandle → Type 0
Disconnected a [] = ⊥
Disconnected a (h ∷ hs) = ((h.address ≡ a) × (h.receiver ≡ [])) ⊎ Disconnected a hs

reporter_of-swap :
    (g : GeneratorHandle) (u : List GeneratorUpdate) (h : GeneratorHandle)
    (w : List GeneratorUpdate) (rs : List Reporter)
    → Permᴰ
        (reporter_of g u ++ (reporter_of h w ++ rs))
        (reporter_of h w ++ (reporter_of g u ++ rs))
reporter_of-swap g [] h w rs = Permᴰ.refl _
reporter_of-swap g (finished ∷ us) h w rs = Permᴰ.refl _
reporter_of-swap g (interval_report r ∷ us) h [] rs = Permᴰ.refl _
reporter_of-swap g (interval_report r ∷ us) h (finished ∷ ws) rs = Permᴰ.refl _
reporter_of-swap g (interval_report r ∷ us) h (interval_report s ∷ ws) rs = Permᴰ.swap refl refl

pub reporters-Perm :
    {gs hs : List GeneratorHandle} → Permᴰ gs hs → Permᴰ (reporters gs) (reporters hs)
reporters-Perm Permᴰ.nil = Permᴰ.nil
reporters-Perm (Permᴰ.cons {a = a} {b = b} {l₂ = hs} e p) =
    Permᴰ.trans (Permᴰ.append_left (reporter_of a a.receiver) (reporters-Perm p)) (
      subst
        (λ (h : GeneratorHandle).
          Permᴰ (reporter_of a a.receiver ++ reporters hs)
            (reporter_of h h.receiver ++ reporters hs))
        e (Permᴰ.refl _))
reporters-Perm (Permᴰ.swap {a = a} {b = b} {b' = b'} {l = hs} e f) =
    subst (λ (h : GeneratorHandle). Permᴰ (reporters (a ∷ b ∷ hs)) (reporters (h ∷ b' ∷ hs))) f
      (subst (λ (h : GeneratorHandle). Permᴰ (reporters (a ∷ b ∷ hs)) (reporters (b ∷ h ∷ hs))) e
        (reporter_of-swap a a.receiver b b.receiver (reporters hs)))
reporters-Perm (Permᴰ.trans p q) = Permᴰ.trans (reporters-Perm p) (reporters-Perm q)

pub Disconnected-Perm :
    (a : String) {gs hs : List GeneratorHandle}
    → Permᴰ gs hs
    → Disconnected a gs
    → Disconnected a hs
Disconnected-Perm a Permᴰ.nil d = d
Disconnected-Perm a (Permᴰ.cons e p) (inl d) =
    inl (subst (λ (h : GeneratorHandle). (h.address ≡ a) × (h.receiver ≡ [])) e d)
Disconnected-Perm a (Permᴰ.cons e p) (inr d) = inr (Disconnected-Perm a p d)
Disconnected-Perm a (Permᴰ.swap e f) (inl d) =
    inr (inl (subst (λ (h : GeneratorHandle). (h.address ≡ a) × (h.receiver ≡ [])) e d))
Disconnected-Perm a (Permᴰ.swap e f) (inr (inl d)) =
    inl (subst (λ (h : GeneratorHandle). (h.address ≡ a) × (h.receiver ≡ [])) f d)
Disconnected-Perm a (Permᴰ.swap e f) (inr (inr d)) = inr (inr d)
Disconnected-Perm a (Permᴰ.trans p q) d = Disconnected-Perm a q (Disconnected-Perm a p d)

pub handles_after-append :
    (rs : List Reporter) (a : String) (r : IntervalReport) (later : List GeneratorUpdate)
    → handles_after rs ++ record { address = a; receiver = later } ∷ []
      ≡ handles_after (rs ++ record { address = a; report = r; later = later } ∷ [])
handles_after-append [] a r later = refl
handles_after-append (s ∷ rs) a r later = ap (◌∷◌ (after s)) (handles_after-append rs a r later)

pub reports_of-append :
    (rs : List Reporter) (a : String) (r : IntervalReport) (later : List GeneratorUpdate)
    → reports_of rs ++ r ∷ []
      ≡ reports_of (rs ++ record { address = a; report = r; later = later } ∷ [])
reports_of-append [] a r later = refl
reports_of-append (s ∷ rs) a r later = ap (◌∷◌ s.report) (reports_of-append rs a r later)
