-- ===== src/Worker/Owned.antt =====
-- The jobs that the threads of src/worker.c hold: all in the store, at addresses of their own, in
-- whatever order the addresses are listed.
use mathlib.Core.List.{Permᴰ}
use boom_par.Prelude.{ℕ, ◌≡◌, ◌≢◌, sym, subst, ap, ◌∙◌, refl, List, [], ◌∷◌, Option, none, map}
use boom_par.Job.{Job}
use boom_par.Worker.{set_job}
use boom_par.Worker.Ready.{Fresh, Stored, AllReady, set_job-AllReady}

pub Fresh-Perm : (a : ℕ) {bs cs : List ℕ} → Permᴰ bs cs → Fresh a bs → Fresh a cs
Fresh-Perm a Permᴰ.nil f = f
Fresh-Perm a (Permᴰ.cons e p) f = ((λ same. f.0 (same ∙ sym e)), Fresh-Perm a p f.1)
Fresh-Perm a (Permᴰ.swap e e') f =
    ((λ same. f.1.0 (same ∙ sym e')), ((λ same. f.0 (same ∙ sym e)), f.1.1))
Fresh-Perm a (Permᴰ.trans p q) f = Fresh-Perm a q (Fresh-Perm a p f)

pub AllReady-Perm :
    (jobs : ℕ → Option Job) {bs cs : List ℕ} → Permᴰ bs cs → AllReady jobs bs → AllReady jobs cs
AllReady-Perm jobs Permᴰ.nil r = r
AllReady-Perm jobs (Permᴰ.cons {l₂ = cs} e p) r =
    let (stored, fresh, ready) = r in
    (
      subst (Stored jobs) e stored,
      subst (λ x. Fresh x cs) e (Fresh-Perm _ p fresh),
      AllReady-Perm jobs p ready,
    )
AllReady-Perm jobs (Permᴰ.swap {l = l} e e') r =
    let (stored, fresh, (stored', fresh', ready)) = r in
    (
      subst (Stored jobs) e' stored',
      ((λ same. fresh.0 (e ∙ sym same ∙ sym e')), subst (λ x. Fresh x l) e' fresh'),
      (subst (Stored jobs) e stored, subst (λ x. Fresh x l) e fresh.1, ready),
    )
AllReady-Perm jobs (Permᴰ.trans p q) r = AllReady-Perm jobs q (AllReady-Perm jobs p r)

-- The job at the first address is deleted.
pub AllReady-deleted :
    (jobs : ℕ → Option Job) (a : ℕ) (bs : List ℕ)
    → AllReady jobs (a ∷ bs)
    → AllReady (set_job jobs a none) bs
AllReady-deleted jobs a bs r = set_job-AllReady jobs a none bs r.1 r.2

-- What the store holds at addresses where it did not change.
pub map-kept :
    (jobs jobs' : ℕ → Option Job) (a : ℕ) (bs : List ℕ)
    → Fresh a bs
    → ((other : ℕ) → a ≢ other → jobs' other ≡ jobs other)
    → map jobs' bs ≡ map jobs bs
map-kept jobs jobs' a [] f same = refl
map-kept jobs jobs' a (b ∷ bs) f same =
    ap (λ o. o ∷ map jobs' bs) (same b f.0)
    ∙ ap (λ os. jobs b ∷ os) (map-kept jobs jobs' a bs f.1 same)
