-- ===== src/Process/Destroy/Removes.antt =====
-- What `destroy_process` does to the list.
use kyro_kernel.Base.{
  ◌==◌, if◌then◌else◌, ==_refl, Bool-cases, ◌>>=◌, length, get_elem?, set, get_elem?-set_ne,
  get_elem?-set_self, ℕ, zero, suc, ◌≤◌, ◌<◌, ◌≡◌, refl, sym, ap, ◌∙◌, subst, ◌≢◌, inl, inr, true,
  false, Option, some, List, [], ◌∷◌, ◌++◌, arith,
}
use kyro_kernel.Heap.{kfree}
use kyro_kernel.Table.Model.{All}
use kyro_kernel.Process.{Process, System}
use kyro_kernel.Process.Chain.{Chain, link, split-Chain, processes-Chain}
use kyro_kernel.Process.Linked.{IsDistinct, store-Chain, Chain-head, All-front, All-middle}
use kyro_kernel.Process.Destroy.{
  find_previous, with_next, points_to, unlink, skip_next, destroy_process, free_process,
}

-- The system in which `q` leads to `n`.
abbrev pub relinked : System → ℕ → Process → Option ℕ → System
relinked s q pq n = record s { processes = set s.processes q (with_next n pq) }

-- The process before `p`, and what is left when it leads to what was behind `p`.
pub record Unlinks (s : System) (o : Option ℕ) (p : ℕ) (n : Option ℕ) (fuel : ℕ)
    (front rest : List ℕ) : Type 0 where
  pub q : ℕ
  pub pq : Process
  pub found : find_previous fuel p o s ≡ some (some q)
  pub here : get_elem? s.processes q ≡ some pq
  pub inside : (x : ℕ) → All (λ y. y ≢ x) front → q ≢ x
  pub chain : Chain (relinked s q pq n) o rest

-- One turn of the loop, at a process that leads to `y`.
find_step :
    (s : System) (fuel p x : ℕ) (proc : Process) (y : ℕ)
    → get_elem? s.processes x ≡ some proc
    → proc.next ≡ some y
    → find_previous (suc fuel) p (some x) s
      ≡ (if y == p then some (some x) else find_previous fuel p (some y) s)
unfolding find_previous
find_step s fuel p x proc y e n =
    rw e
      (ap (λ (o : Option ℕ). if points_to p o then some (some x) else find_previous fuel p o s) n)

pub find_previous-Unlinks :
    (s : System) (x p fuel : ℕ) (pp : Process) (b after : List ℕ) (o : Option ℕ)
    → Chain s o (x ∷ b ++ p ∷ after)
    → get_elem? s.processes p ≡ some pp
    → Chain s pp.next after
    → IsDistinct (x ∷ b ++ p ∷ after)
    → length b < fuel
    → Unlinks s o p pp.next fuel (x ∷ b) (x ∷ b ++ after)
find_previous-Unlinks s x p zero pp b after o c ep rest d h = absurd (omega arith)
find_previous-Unlinks s x p (suc fuel) pp [] after _ (link {proc} e c) ep rest d h = record {
  q = x;
  pq = proc;
  found = find_step s fuel p x proc p e (Chain-head c) ∙ rw (==_refl p) refl;
  here = e;
  inside = λ y a. a.0;
  chain = link (get_elem?-set_self s.processes x _ e) (store-Chain s x _ pp.next after d.0.1 rest);
}
find_previous-Unlinks s x p (suc fuel) pp (y ∷ b) after _ (link {proc} e c) ep rest d h =
    let u = find_previous-Unlinks s y p fuel pp b after proc.next c ep rest d.1 (omega arith) in
    record {
      q = u.q;
      pq = u.pq;
      found =
          find_step s fuel p x proc y e (Chain-head c)
          ∙ (let other : (y == p) ≡ false = ground (arith, All-middle y b p after d.1.0) in
              rw other (
                subst (λ (o : Option ℕ). find_previous fuel p o s ≡ some (some u.q)) (Chain-head c)
                  u.found));
      here = u.here;
      inside = λ z a. u.inside z a.1;
      chain =
          link
            (get_elem?-set_ne s.processes u.q x _ (u.inside x (All-front x (y ∷ b) (p ∷ after) d.0))
              ∙ e)
            u.chain;
    }

-- Only a process of `before` is changed.
pub record Removed (s : System) (before after : List ℕ) (r : Option System) : Type 0 where
  pub s' : System
  pub run : r ≡ some s'
  pub current : s'.current_process ≡ s.current_process
  pub heap : s'.heap ≡ s.heap
  pub chain : Chain s' s'.process_list (before ++ after)
  pub others :
      (q : ℕ) → All (λ x. x ≢ q) before → get_elem? s'.processes q ≡ get_elem? s.processes q

unlink-first :
    (s : System) (p fuel : ℕ) (pp : Process)
    → s.process_list ≡ some p
    → unlink fuel p pp s ≡ some (record s { process_list = pp.next })
unfolding unlink
unlink-first s p fuel pp e =
    let same : points_to p s.process_list ≡ true = ap (points_to p) e ∙ ==_refl p in rw same refl

unlink-later :
    (s : System) (p x fuel : ℕ) (pp : Process)
    → s.process_list ≡ some x
    → x ≢ p
    → unlink fuel p pp s
      ≡ (find_previous fuel p s.process_list s >>= λ (c : Option ℕ). skip_next c pp.next s)
unfolding unlink
unlink-later s p x fuel pp e ne =
    let other : points_to p s.process_list ≡ false =
      ap (points_to p) e ∙ (let t : (x == p) ≡ false = ground arith in t) in
    rw other refl

destroy-run :
    (s s' : System) (p fuel : ℕ) (pp : Process)
    → get_elem? s.processes p ≡ some pp
    → unlink fuel p pp s ≡ some s'
    → destroy_process fuel (some p) s ≡ some (free_process p pp s')
unfolding destroy_process
destroy-run s s' p fuel pp e u = rw (e, u) refl

heap-free_process : (p : ℕ) (proc : Process) (s : System) → (free_process p proc s).heap ≡ s.heap
unfolding free_process
heap-free_process p proc s =
    unfold kfree in
    elim (Bool-cases (proc.page_directory == s.kernel_directory)) [
      | inl same ↦ rw same refl
      | inr other ↦ rw other refl
    ]

-- When the list of processes is `before`, `p` and `after`, no place occurs in it twice, and the
-- fuel is at least the length of `before`, `destroy_process` of `p` returns; the list is then
-- `before` and `after`, and the processes that are not in `before`, the current process and the
-- heap are as they were.
pub destroy_process-Removed :
    (s : System) (p fuel : ℕ) (before after : List ℕ)
    → Chain s s.process_list (before ++ p ∷ after)
    → IsDistinct (before ++ p ∷ after)
    → length before ≤ fuel
    → Removed s before after (destroy_process fuel (some p) s)
destroy_process-Removed s p fuel [] after c d h =
    let (pp, e, rest) = split-Chain s p [] after s.process_list c in
    record {
      s' = free_process p pp (record s { process_list = pp.next });
      run = destroy-run s _ p fuel pp e (unlink-first s p fuel pp (Chain-head c));
      current = unfold free_process in refl;
      heap = heap-free_process p pp (record s { process_list = pp.next });
      chain = unfold free_process in processes-Chain s _ pp.next after refl rest;
      others = λ q a. unfold free_process in refl;
    }
destroy_process-Removed s p fuel (x ∷ b) after c d h =
    let (pp, e, rest) = split-Chain s p (x ∷ b) after s.process_list c in
    let u = find_previous-Unlinks s x p fuel pp b after s.process_list c e rest d (omega arith) in
    record {
      s' = free_process p pp (relinked s u.q u.pq pp.next);
      run = destroy-run s _ p fuel pp e (
          unlink-later s p x fuel pp (Chain-head c) (λ e. All-middle x b p after d.0 (sym e))
          ∙ rw u.found (unfold skip_next in rw u.here refl));
      current = unfold free_process in refl;
      heap = heap-free_process p pp (relinked s u.q u.pq pp.next);
      chain =
          unfold free_process in
          processes-Chain (relinked s u.q u.pq pp.next) _ s.process_list (x ∷ b ++ after) refl
            u.chain;
      others = λ q a. unfold free_process in get_elem?-set_ne s.processes u.q q _ (u.inside q a);
    }
