-- ===== src/Github/Retention/Lifecycle.antt =====
-- src/github/tree-manifest-retention.ts and src/github/tree-manifest-purge.ts: the life of a manifest, as the
-- steps that the program may take on its rows.
use edgemneme.Base.{◌+◌, ◌≤◌, ◌≡◌, ◌⊎◌, inl, inr, refl, sym, ◌∙◌, true, [], arith, All}
use mathlib.Core.List.{Memᴰ}
use edgemneme.Github.Retention.{Store, staging, complete, failed, purging, purged, is_unprotected}

-- `outside`: heads, deltas, events, the time, and the other columns of the manifest. `stage`: the manifest is built and may be completed.
-- `fail`: it fails while it is built. `claim`: a failed manifest, or one whose purge was left, is claimed.
-- `remove`: entries of a claimed manifest are deleted. `finish`: a claimed manifest with no entries is
-- purged. The last three need that nothing protects the manifest.
pub data Step : Store → Store → Type 0 where
  outside :
      {s t : Store}
      → t.manifest.status ≡ s.manifest.status
      → t.manifest.retention_version ≡ s.manifest.retention_version
      → t.entries ≡ s.entries
      → Step s t
  stage :
      {s t : Store}
      → s.manifest.status ≡ staging
      → (t.manifest.status ≡ staging) ⊎ (t.manifest.status ≡ complete)
      → t.manifest.retention_version ≡ s.manifest.retention_version
      → Step s t
  fail :
      {s t : Store}
      → s.manifest.status ≡ staging
      → t.manifest.status ≡ failed
      → t.manifest.retention_version ≡ s.manifest.retention_version
      → t.entries ≡ s.entries
      → Step s t
  claim :
      {s t : Store}
      → (s.manifest.status ≡ failed) ⊎ (s.manifest.status ≡ purging)
      → is_unprotected s ≡ true
      → t.manifest.status ≡ purging
      → t.manifest.retention_version ≡ s.manifest.retention_version + 1
      → t.entries ≡ s.entries
      → Step s t
  remove :
      {s t : Store}
      → s.manifest.status ≡ purging
      → is_unprotected s ≡ true
      → t.manifest ≡ s.manifest
      → All (λ digest. Memᴰ digest s.entries) t.entries
      → Step s t
  finish :
      {s t : Store}
      → s.manifest.status ≡ purging
      → is_unprotected s ≡ true
      → s.entries ≡ []
      → t.manifest.status ≡ purged
      → t.manifest.retention_version ≡ s.manifest.retention_version + 1
      → t.entries ≡ []
      → Step s t

pub data Reach (s : Store) : Store → Type 0 where
  here : Reach s s
  next : {t u : Store} → Reach s t → Step t u → Reach s u

pub Reach-one : {s t : Store} → Step s t → Reach s t
Reach-one step = next here step

pub Reach-trans : {s t u : Store} → Reach s t → Reach t u → Reach s u
Reach-trans r here = r
Reach-trans r (next q step) = next (Reach-trans r q) step

-- A purged manifest has no entries.
abbrev pub IsSound : Store → Type 0
IsSound s = s.manifest.status ≡ purged → s.entries ≡ []

Step-IsSound : {s t : Store} → Step s t → IsSound s → IsSound t
Step-IsSound (outside m v e) h p = e ∙ h (sym m ∙ p)
Step-IsSound (stage a (inl b) v) h p = cc
Step-IsSound (stage a (inr b) v) h p = cc
Step-IsSound (fail a b v e) h p = cc
Step-IsSound (claim a u b v e) h p = cc
Step-IsSound (remove a u m e) h p = absurd (ground (arith, m))
Step-IsSound (finish a u n b v e) h p = e

pub Reach-IsSound : {s t : Store} → Reach s t → IsSound s → IsSound t
Reach-IsSound here h = h
Reach-IsSound (next r step) h = Step-IsSound step (Reach-IsSound r h)

-- What no step undoes: the retention version does not fall, and a complete or purged manifest keeps its
-- status and its entries.
pub record Keeps (s t : Store) : Type 0 where
  pub version : s.manifest.retention_version ≤ t.manifest.retention_version
  pub completed :
      s.manifest.status ≡ complete → (t.manifest.status ≡ complete) × (t.entries ≡ s.entries)
  pub finished : s.manifest.status ≡ purged → (t.manifest.status ≡ purged) × (t.entries ≡ s.entries)

Step-Keeps : {s t : Store} → Step s t → Keeps s t
Step-Keeps (outside m v e) = record {
  version = omega arith;
  completed = λ c. (m ∙ c, e);
  finished = λ c. (m ∙ c, e);
}
Step-Keeps (stage a b v) = record {
  version = omega arith;
  completed = λ c. absurd (cc);
  finished = λ c. absurd (cc);
}
Step-Keeps (fail a b v e) = record {
  version = omega arith;
  completed = λ c. absurd (cc);
  finished = λ c. absurd (cc);
}
Step-Keeps (claim (inl a) u b v e) = record {
  version = omega arith;
  completed = λ c. absurd (cc);
  finished = λ c. absurd (cc);
}
Step-Keeps (claim (inr a) u b v e) = record {
  version = omega arith;
  completed = λ c. absurd (cc);
  finished = λ c. absurd (cc);
}
Step-Keeps (remove a u m e) = record {
  version = ground (arith, m);
  completed = λ c. absurd (cc);
  finished = λ c. absurd (cc);
}
Step-Keeps (finish a u n b v e) = record {
  version = omega arith;
  completed = λ c. absurd (cc);
  finished = λ c. absurd (cc);
}

Keeps-trans : {s t u : Store} → Keeps s t → Keeps t u → Keeps s u
Keeps-trans a b = record {
  version = omega (arith, a.version, b.version);
  completed = λ c. let (d, e) = a.completed c in let (f, g) = b.completed d in (f, g ∙ e);
  finished = λ c. let (d, e) = a.finished c in let (f, g) = b.finished d in (f, g ∙ e);
}

pub Reach-Keeps : {s t : Store} → Reach s t → Keeps s t
Reach-Keeps here = record {
  version = omega arith;
  completed = λ c. (c, refl);
  finished = λ c. (c, refl);
}
Reach-Keeps (next r step) = Keeps-trans (Reach-Keeps r) (Step-Keeps step)
