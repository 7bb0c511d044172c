-- ===== src/System/Protection/Partition.antt =====
-- The two parts of `partition` (crates/app-powerd-core/src/system/protection.rs).
use app_powerd.Prelude.{
  ℕ, ◌≡◌, ◌↔◌, ◌⊎◌, inl, inr, List, [], ◌∷◌, ◌++◌, none, some, In, In-append, In-append_left,
  In-append_right, Option-cases,
}
use app_powerd.Host.{Host, Trace, ProcessHandle}
use app_powerd.System.Protection.{
  ProtectionReason, ProtectionPolicy, verdict, partition_from, partition,
}

module _ (host : Host) (t : Trace) (policy : ProtectionPolicy) (own_roots : List ℕ) where
  -- What the loop's two results hold: the allowed so far, and each process that is protected.
  abbrev pub IsSplit :
      List ProcessHandle
      → List ProcessHandle
      → List (ℕ × ProtectionReason)
      → List ProcessHandle × List (ℕ × ProtectionReason)
      → ProcessHandle
      → Type 0
  IsSplit procs allowed protected r h =
      (In h r.0 ↔ (In h allowed ⊎ (In h procs × (verdict host t policy own_roots h ≡ none))))
      × (((why : ProtectionReason)
            → In h procs
            → verdict host t policy own_roots h ≡ some why
            → In (h.pid, why) r.1)
          × ((x : ℕ × ProtectionReason) → In x protected → In x r.1))

  partition_from-IsSplit :
      (procs allowed : List ProcessHandle) (protected : List (ℕ × ProtectionReason))
      (h : ProcessHandle)
      → IsSplit procs allowed protected
          (partition_from host t policy own_roots allowed protected procs)
          h
  unfolding partition_from
  partition_from-IsSplit [] allowed protected h = (
    (λ i. inl i, λ s. elim s [ inl i ↦ i | inr (b, v) ↦ absurd b ]),
    (λ why b v. absurd b, λ x i. i),
  )
  partition_from-IsSplit (p ∷ procs) allowed protected h =
      elim (Option-cases (verdict host t policy own_roots p)) [
        | inl free ↦
            rw (free, partition_from)
              (let rest = partition_from-IsSplit procs (allowed ++ p ∷ []) protected h in
                (
                  (
                    λ i. elim (rest.0.0 i) [
                      | inl a ↦ elim (In-append h allowed (p ∷ []) a) [
                        | inl old ↦ inl old
                        | inr (inl here) ↦ inr (inl here, rw here free)
                        | inr (inr b) ↦ absurd b
                      ]
                      | inr (m, v) ↦ inr (inr m, v)
                    ],
                    λ s. rest.0.1 (elim s [
                      | inl old ↦ inl (In-append_left h allowed (p ∷ []) old)
                      | inr (inl here, v) ↦ inl (In-append_right h allowed (p ∷ []) (inl here))
                      | inr (inr m, v) ↦ inr (m, v)
                    ]),
                  ),
                  (
                    λ why m v. elim m [ inl here ↦ cc | inr later ↦ rest.1.0 why later v ],
                    rest.1.1,
                  ),
                ))
        | inr (reason, held) ↦
            rw (held, partition_from)
              (let rest =
                  partition_from-IsSplit procs allowed (protected ++ (p.pid, reason) ∷ []) h in
                (
                  (
                    λ i. elim (rest.0.0 i) [ inl old ↦ inl old | inr (m, v) ↦ inr (inr m, v) ],
                    λ s. rest.0.1 (elim s [
                      | inl old ↦ inl old
                      | inr (inl here, v) ↦ cc
                      | inr (inr m, v) ↦ inr (m, v)
                    ]),
                  ),
                  (
                    λ why m v. elim m [
                      | inl here ↦
                          rest.1.1 (h.pid, why)
                            (In-append_right (h.pid, why) protected ((p.pid, reason) ∷ []) (inl cc))
                      | inr later ↦ rest.1.0 why later v
                    ],
                    λ x i. rest.1.1 x (In-append_left x protected ((p.pid, reason) ∷ []) i),
                  ),
                ))
      ]

  -- Of the processes of a tree, `partition` lets through exactly those with no verdict, and lists
  -- every other with the verdict on it.
  pub partition-IsSplit :
      (procs : List ProcessHandle) (h : ProcessHandle)
      → let r = partition host t policy procs own_roots in
        (In h r.0 ↔ (In h procs × (verdict host t policy own_roots h ≡ none)))
        × ((why : ProtectionReason)
            → In h procs
            → verdict host t policy own_roots h ≡ some why
            → In (h.pid, why) r.1)
  unfolding partition
  partition-IsSplit procs h =
      let split = partition_from-IsSplit procs [] [] h in
      (
        (λ i. elim (split.0.0 i) [ inl b ↦ absurd b | inr m ↦ m ], λ m. split.0.1 (inr m)),
        split.1.0,
      )
