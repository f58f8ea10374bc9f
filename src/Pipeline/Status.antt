-- ===== src/Pipeline/Status.antt =====
-- Which collectors are said to have succeeded: src/pipeline/pipeline.cpp.
use sysal.Prelude.{
  Bool-cases, any, keep, is_nil, All, append-is_nil, Bytes, text_eq, text_mem, ◌≡◌, refl, ap, ◌∙◌,
  ◌⊎◌, inl, inr, Bool, true, not, ◌&&◌, ◌||◌, List, [], ◌∷◌, ◌++◌, arith,
}
use sysal.Collect.{
  Collect, platform_flag, cpu_flag, memory_flag, accelerator_flag, network_flag, storage_flag,
  pci_flag, software_flag, execution_flag, sensors_flag, storage_health_flag, ◌∪◌, has,
}
use sysal.Collect.Flags.{has_union}
use sysal.Pipeline.{
  Domain, sensors, platform, cpu, memory, pci, network, accelerators, storage, software, execution,
  ParseResult, Check, checks, Collectors, check, record_collector_status, run_check, run_checks,
  all_failed, parser_dispatch, dispatched,
}

-- an entry of the table
abbrev HoldsEntry : Collect × Domain → List (Collect × Domain) → Type 0
HoldsEntry e [] = ⊥
HoldsEntry e (t ∷ table) = (t ≡ e) ⊎ HoldsEntry e table

abbrev pub HoldsDomain : Domain → List Domain → Type 0
HoldsDomain d [] = ⊥
HoldsDomain d (e ∷ ds) = (e ≡ d) ⊎ HoldsDomain d ds

dispatched-HoldsDomain :
    (flags flag : Collect) (domain : Domain) (table : List (Collect × Domain))
    → HoldsEntry (flag, domain) table
    → has flags flag ≡ true
    → HoldsDomain domain (dispatched flags table)
unfolding dispatched
dispatched-HoldsDomain flags flag domain [] h k = h
dispatched-HoldsDomain flags flag domain ((f, d) ∷ table) (inl e) k =
    elim (Bool-cases (has flags f)) [
      | inl t ↦ rw t (inl (ap (λ p. p.1) e))
      | inr t ↦ absurd (ground (arith, ap (λ p. p.0) e))
    ]
dispatched-HoldsDomain flags flag domain ((f, d) ∷ table) (inr h) k =
    let rest = dispatched-HoldsDomain flags flag domain table h k in
    elim (Bool-cases (has flags f)) [ inl t ↦ rw t (inr rest) | inr t ↦ rw t rest ]

-- the calls in the code are those that `checks` lists
record_collector_status-run_checks :
    (r : ParseResult) (flags : Collect) (s : Collectors)
    → record_collector_status r flags s ≡ run_checks flags (checks r) s
unfolding record_collector_status run_checks run_check checks check
record_collector_status-run_checks r flags s = refl

module _ (flags : Collect) (name : Bytes) where
  -- the check succeeds, or fails, under this name
  abbrev pub succeeds : Check → Bool
  succeeds c = text_eq name c.name && (has flags c.flag && c.available)

  abbrev pub fails : Check → Bool
  fails c = text_eq name c.name && (has flags c.flag && not c.available)

  text_mem-concat :
      (xs : List Bytes) (y : Bytes)
      → text_mem name (xs ++ y ∷ []) ≡ (text_mem name xs || text_eq name y)
  unfolding text_mem
  text_mem-concat [] y = ground arith
  text_mem-concat (x ∷ xs) y = ground (arith, text_mem-concat xs y)

  run_check-text_mem :
      (c : Check) (s : Collectors)
      → (text_mem name (run_check flags c s).0 ≡ (text_mem name s.0 || succeeds c))
        × (text_mem name (run_check flags c s).1 ≡ (text_mem name s.1 || fails c))
  unfolding run_check check
  run_check-text_mem c (succeeded, failed) =
      ground (arith, text_mem-concat succeeded c.name, text_mem-concat failed c.name)

  run_checks-text_mem :
      (cs : List Check) (s : Collectors)
      → (text_mem name (run_checks flags cs s).0 ≡ (text_mem name s.0 || any succeeds cs))
        × (text_mem name (run_checks flags cs s).1 ≡ (text_mem name s.1 || any fails cs))
  unfolding run_checks
  run_checks-text_mem [] s = (ground arith, ground arith)
  run_checks-text_mem (c ∷ cs) s =
      ground (arith, run_check-text_mem c s, run_checks-text_mem cs (run_check flags c s))

-- the names that the checks list
pub record_collector_status_lem :
    (r : ParseResult) (flags : Collect) (name : Bytes)
    → let s = record_collector_status r flags ([], []) in
      (text_mem name s.0 ≡ any (succeeds flags name) (checks r))
      × (text_mem name s.1 ≡ any (fails flags name) (checks r))
unfolding text_mem
record_collector_status_lem r flags name =
    rw (record_collector_status-run_checks r flags ([], []))
      (run_checks-text_mem flags name (checks r) ([], []))

run_checks-all_failed :
    (flags : Collect) (cs : List Check) (s : Collectors)
    → (is_nil (run_checks flags cs s).0
        ≡ (is_nil s.0 && not (any (λ c. has flags c.flag && c.available) cs)))
      × (is_nil (run_checks flags cs s).1
          ≡ (is_nil s.1 && not (any (λ c. has flags c.flag && not c.available) cs)))
unfolding run_checks run_check check
run_checks-all_failed flags [] s = (ground arith, ground arith)
run_checks-all_failed flags (c ∷ cs) s = ground (
  arith,
  run_checks-all_failed flags cs (run_check flags c s),
  append-is_nil s.0 c.name [],
  append-is_nil s.1 c.name [],
)

-- the guard of the exception, over the checks
pub all_failed_lem :
    (r : ParseResult) (flags : Collect)
    → all_failed (record_collector_status r flags ([], [])) ≡ (
        any (λ c. has flags c.flag) (checks r)
        && not (any (λ c. has flags c.flag && c.available) (checks r)))
unfolding all_failed
all_failed_lem r flags =
    rw (record_collector_status-run_checks r flags ([], []))
      (ground (arith, run_checks-all_failed flags (checks r) ([], []), asked flags (checks r)))
  where
    asked :
        (flags : Collect) (cs : List Check)
        → any (λ c. has flags c.flag) cs ≡ (
            any (λ c. has flags c.flag && c.available) cs
            || any (λ c. has flags c.flag && not c.available) cs)
    asked flags [] = refl
    asked flags (c ∷ cs) = ground (arith, asked flags cs)

checks-asked :
    (r : ParseResult) (flags : Collect)
    → All
        (λ c. has flags c.flag ≡ true → HoldsDomain c.domain (dispatched flags parser_dispatch))
        (checks r)
unfolding checks
checks-asked r flags =
    let go =
      λ (f : Collect) (d : Domain) (there : HoldsEntry (f, d) parser_dispatch)
          (k : has flags f ≡ true).
        dispatched-HoldsDomain flags f d parser_dispatch there k in
    let storage_or_health = storage_flag ∪ storage_health_flag in
    let any_pci = pci_flag ∪ network_flag ∪ storage_flag ∪ storage_health_flag in
    let pci_union : (has flags pci_flag ≡ true) → (has flags any_pci ≡ true) = λ k. ground (
      arith,
      k,
      (has_union (pci_flag ∪ network_flag ∪ storage_flag) storage_health_flag flags).1,
      (has_union (pci_flag ∪ network_flag) storage_flag flags).1,
      (has_union pci_flag network_flag flags).1,
    ) in
    let storage_union : ((has flags storage_flag || has flags storage_health_flag) ≡ true)
        → (has flags storage_or_health ≡ true) =
      λ k. (has_union storage_flag storage_health_flag flags).1 ∙ k in
    (
      go sensors_flag sensors (inl refl),
      (
        go platform_flag platform (inr (inl refl)),
        (
          go cpu_flag cpu (inr (inr (inl refl))),
          (
            go memory_flag memory (inr (inr (inr (inl refl)))),
            (
              λ k. go any_pci pci (inr (inr (inr (inr (inl refl))))) (pci_union k),
              (
                go network_flag network (inr (inr (inr (inr (inr (inl refl)))))),
                (
                  go accelerator_flag accelerators (inr (inr (inr (inr (inr (inr (inl refl))))))),
                  (
                    λ k.
                        go storage_or_health storage
                          (inr (inr (inr (inr (inr (inr (inr (inl refl))))))))
                          (storage_union (ground (arith, k))),
                    (
                      λ k.
                          go storage_or_health storage
                            (inr (inr (inr (inr (inr (inr (inr (inl refl))))))))
                            (storage_union (ground (arith, k))),
                      (
                        go software_flag software
                            (inr (inr (inr (inr (inr (inr (inr (inr (inl refl))))))))),
                        (
                          go execution_flag execution
                              (inr (inr (inr (inr (inr (inr (inr (inr (inr (inl refl)))))))))),
                          tt,
                        ),
                      ),
                    ),
                  ),
                ),
              ),
            ),
          ),
        ),
      ),
    )

kept :
    (p : Check → Bool) (P : Check → Type 0) (cs : List Check)
    → All (λ c. p c ≡ true → P c) cs
    → All P (keep p cs)
kept p P [] h = tt
kept p P (c ∷ cs) (hc, h) = elim (Bool-cases (p c)) [
  | inl e ↦ rw e (hc e, kept p P cs h)
  | inr e ↦ rw e (kept p P cs h)
]

-- The domain of every check that the flags ask for was parsed: whatever is asked for, no collector
-- is listed as failed because its parser was left out of the dispatch.
pub checks-dispatched :
    (r : ParseResult) (flags : Collect)
    → All
        (λ c. HoldsDomain c.domain (dispatched flags parser_dispatch))
        (keep (λ c. has flags c.flag) (checks r))
checks-dispatched r flags =
    kept (λ c. has flags c.flag) (λ c. HoldsDomain c.domain (dispatched flags parser_dispatch))
      (checks r) (checks-asked r flags)
