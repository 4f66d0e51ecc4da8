-- ===== src/Recovery/Audit/Integrity.antt =====
-- What the views and the copies of crates/uf-daemon/src/ddr_recovery_audit.rs refer to.
use uflow.Prelude.{
  ℕ, ◌≡◌, refl, ◌⊎◌, inl, inr, Bool, true, false, none, some, Bool-cases, arith, nat_key, ◌==◌,
}
use uflow.Prelude.Maps.{Map, get, insert, any_value, get-insert, get_of_any_value}
use uflow.Recovery.Audit.State.{
  AuditReplay, Backing, BackingState, View, Work, is_closed, is_resolved, range,
}
use uflow.Recovery.Audit.Backings.{is_open_view_of, is_running_on}
use uflow.Recovery.Audit.Moves.{Live}

-- The generation of the object is in the map, the range lies in it, and it is open or is not in use.
pub record Covered (m : Map ℕ Backing) (object_id generation offset bytes : ℕ) (at_rest : Bool)
    : Type 0 where
  pub backing : Backing
  pub found : get object_id m ≡ some backing
  pub current : backing.identity.resource_generation ≡ generation
  pub inside : range offset bytes backing.identity.bytes ≡ true
  pub open_in_use : (at_rest ≡ true) ⊎ (is_closed backing.state ≡ false)

-- A write to a map of backings, `at_rest` as long as it closes one.
pub data Written (m : Map ℕ Backing) (id : ℕ) (now : Backing) (object_id : ℕ) (at_rest : Bool)
    : Type 0 where
  fresh : get id m ≡ none → Written m id now object_id at_rest
  updated :
      (old : Backing)
      → get id m ≡ some old
      → now.identity ≡ old.identity
      → (is_closed now.state ≡ false) ⊎ ((object_id ≡ id) → at_rest ≡ true)
      → Written m id now object_id at_rest

module _ (m : Map ℕ Backing) (id : ℕ) (now : Backing) (o g offset bytes : ℕ) (at_rest : Bool) where
  still-Covered :
      Written m id now o at_rest
      → Covered m o g offset bytes at_rest
      → Covered (insert id now m) o g offset bytes at_rest
  still-Covered how c = elim (Bool-cases (id == o)) [
    | inr apart ↦ record {
      backing = c.backing;
      found = ground (arith, get-insert id o now m, apart, c.found);
      current = c.current;
      inside = c.inside;
      open_in_use = c.open_in_use;
    }
    | inl same ↦ same_entry how same
  ]
    where
      same_entry :
          Written m id now o at_rest
          → (id == o) ≡ true
          → Covered (insert id now m) o g offset bytes at_rest
      same_entry (fresh free) same = absurd (ground (arith, free, same, c.found))
      same_entry (updated old there alike rest) same = record {
        backing = now;
        found = ground (arith, get-insert id o now m, same);
        current = ground (arith, there, alike, same, c.found, c.current);
        inside = ground (arith, there, alike, same, c.found, c.inside);
        open_in_use = elim rest [
          | inl stays ↦ inr stays
          | inr quiet ↦ inl (quiet (ground (arith, same)))
        ];
      }

pub relaxed :
    {m : Map ℕ Backing} {o g offset bytes : ℕ} {before after : Bool}
    → (before ≡ true → after ≡ true)
    → Covered m o g offset bytes before
    → Covered m o g offset bytes after
relaxed weaker c = record {
  backing = c.backing;
  found = c.found;
  current = c.current;
  inside = c.inside;
  open_in_use = elim c.open_in_use [ inl quiet ↦ inl (weaker quiet) | inr stays ↦ inr stays ];
}

-- A source or target that is live covers a range in it.
pub ranges_held :
    {s : AuditReplay} {o g offset bytes : ℕ} {state : BackingState} {b : Backing} {at_rest : Bool}
    → Live s o g state b
    → is_closed state ≡ false
    → range offset bytes b.identity.bytes ≡ true
    → Covered s.backings o g offset bytes at_rest
ranges_held {b = b} live stays inside = record {
  backing = b;
  found = live.found;
  current = live.current;
  inside = inside;
  open_in_use = inr (ground (arith, live.in_state, stays));
}

abbrev pub ViewCovered : Map ℕ Backing → View → Type 0
ViewCovered m v =
    Covered m v.identity.object_id v.identity.resource_generation v.identity.offset v.identity.bytes
      (is_resolved v.state)

abbrev pub SourceCovered : Map ℕ Backing → Work → Type 0
SourceCovered m w =
    Covered m w.identity.source_id w.identity.source_generation w.identity.src_offset
      w.identity.bytes w.drained

abbrev pub TargetCovered : Map ℕ Backing → Work → Type 0
TargetCovered m w =
    Covered m w.identity.target_id w.identity.target_generation w.identity.dst_offset
      w.identity.bytes w.drained

-- Each view and each copy refers to backings that cover it.
pub record Linked (s : AuditReplay) : Type 0 where
  pub views : (id : ℕ) (v : View) → get id s.views ≡ some v → ViewCovered s.backings v
  pub sources : (id : ℕ) (w : Work) → get id s.works ≡ some w → SourceCovered s.backings w
  pub targets : (id : ℕ) (w : Work) → get id s.works ≡ some w → TargetCovered s.backings w

-- What holds of the values of a map and of the one written holds of the values then.
pub every_insert {ℓ κ} :
    {V : Type ℓ} (P : V → Type κ) (k : ℕ) (now : V) (m : Map ℕ V)
    → P now
    → ((id : ℕ) (v : V) → get id m ≡ some v → P v)
    → (id : ℕ) (v : V) → get id (insert k now m) ≡ some v
    → P v
every_insert P k now m new_holds holds id v there = elim (Bool-cases (k == id)) [
  | inr apart ↦ holds id v (ground (arith, there, apart, get-insert k id now m))
  | inl same ↦ rw (written same) new_holds
]
  where
    written : (k == id) ≡ true → v ≡ now
    written same = ground (arith, there, same, get-insert k id now m)

module _ (s : AuditReplay) where
  pub rewritten-Linked :
      (id : ℕ) (now : Backing)
      → ((o : ℕ) (at_rest : Bool) → Written s.backings id now o at_rest)
      → Linked s
      → Linked (record s { backings = insert id now s.backings })
  rewritten-Linked id now how links = record {
    views =
        λ q v there. still-Covered s.backings id now _ _ _ _ _ (how _ _) (links.views q v there);
    sources =
        λ q w there. still-Covered s.backings id now _ _ _ _ _ (how _ _) (links.sources q w there);
    targets =
        λ q w there. still-Covered s.backings id now _ _ _ _ _ (how _ _) (links.targets q w there);
  }

  pub closed-Linked :
      (id : ℕ) (old : Backing)
      → get id s.backings ≡ some old
      → any_value (is_open_view_of id) s.views ≡ false
      → any_value (is_running_on id) s.works ≡ false
      → Linked s
      → Linked (record s {
        backings = insert id (record old { state = BackingState.closed }) s.backings;
      })
  closed-Linked id old here no_view no_work links = record {
    views = λ q v there.
        still-Covered s.backings id (record old { state = BackingState.closed }) _ _ _ _ _
          (updated old here refl (
            inr (λ same.
              ground
                (arith, there, same, get_of_any_value (is_open_view_of id) q s.views {v = v}))))
          (links.views q v there);
    sources = λ q w there.
        still-Covered s.backings id (record old { state = BackingState.closed }) _ _ _ _ _
          (updated old here refl (
            inr (λ same.
              ground (arith, there, same, get_of_any_value (is_running_on id) q s.works {v = w}))))
          (links.sources q w there);
    targets = λ q w there.
        still-Covered s.backings id (record old { state = BackingState.closed }) _ _ _ _ _
          (updated old here refl (
            inr (λ same.
              ground (arith, there, same, get_of_any_value (is_running_on id) q s.works {v = w}))))
          (links.targets q w there);
  }
