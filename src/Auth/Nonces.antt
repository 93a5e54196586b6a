-- ===== src/Auth/Nonces.antt =====
-- `BoundedNonceStore` of crates/peerless-anonymous-auth/src/lib.rs.
use peerless_sysytem_fw.Prelude.{
  ℕ, ◌+◌, ◌≤◌, ◌<◌, ◌≡◌, ◌≢◌, refl, ◌∙◌, Bool, true, false, ◌||◌, Option, none, some, [], ◌∷◌,
  Bytes, ltb, leb, if◌then◌else◌, length, arith, inl, inr, Bool-cases, Option-cases,
}
use peerless_sysytem_fw.Prelude.Equality.{bytes_eq, bytes_beq, bytes_beq_iff}
use peerless_sysytem_fw.Prelude.Dict.{
  Dict, lookup, insert, erase, retain, lookup-insert_self, lookup-insert_ne, lookup-erase_ne,
  length-insert-le, length-retain-le,
}

abbrev pub u64_max : ℕ
u64_max = 18446744073709551615

-- `u64::saturating_add`.
abbrev pub saturating_add : ℕ → ℕ → ℕ
saturating_add a b = if ltb u64_max (a + b) then u64_max else a + b

pub data NonceState : Type 0 where
  reserved committed : NonceState

-- The state of a nonce and when it is forgotten.
pub record Entry : Type 0 where
  pub state : NonceState
  pub expiry : ℕ

pub record BoundedNonceStore : Type 0 where
  pub values : Dict Bytes Entry
  pub max_entries : ℕ
  pub retention_seconds : ℕ

abbrev pub is_reserved : NonceState → Bool
is_reserved NonceState.reserved = true
is_reserved NonceState.committed = false

abbrev pub has_reserved : Option Entry → Bool
has_reserved none = false
has_reserved (some e) = is_reserved e.state

abbrev pub is_present : Option Entry → Bool
is_present none = false
is_present (some e) = true

-- `NonceStore::reserve`.
unfoldable pub reserve : BoundedNonceStore → Bytes → ℕ → Bool × BoundedNonceStore
reserve s nonce now =
    let values = retain (λ n e. ltb now e.expiry) s.values in
    if is_present (lookup nonce values) || leb s.max_entries (length values)
    then (false, record s { values = values })
    else (
      true,
      record s {
        values =
            insert nonce
              (record {
                state = NonceState.reserved;
                expiry = saturating_add now s.retention_seconds;
              })
              values;
      },
    )

abbrev pub committed_entry : Bytes → Dict Bytes Entry → Option Entry → Dict Bytes Entry
committed_entry nonce values none = values
committed_entry nonce values (some e) =
    insert nonce (record e { state = NonceState.committed }) values

-- `NonceStore::commit`.
unfoldable pub commit : BoundedNonceStore → Bytes → BoundedNonceStore
commit s nonce = record s { values = committed_entry nonce s.values (lookup nonce s.values) }

-- `NonceStore::release`.
unfoldable pub release : BoundedNonceStore → Bytes → BoundedNonceStore
release s nonce = record s {
  values = if has_reserved (lookup nonce s.values) then erase nonce s.values else s.values;
}

-- A nonce is spent until a time: it is committed and not forgotten before.
pub record Spent (nonce : Bytes) (until : ℕ) (s : BoundedNonceStore) : Type 0 where
  pub entry : Entry
  pub present : lookup nonce s.values ≡ some entry
  pub kept : until ≤ entry.expiry
  pub final : entry.state ≡ NonceState.committed

lookup-retain_kept :
    (now : ℕ) (nonce : Bytes) (e : Entry) (d : Dict Bytes Entry)
    → lookup nonce d ≡ some e
    → now < e.expiry
    → lookup nonce (retain (λ n x. ltb now x.expiry) d) ≡ some e
lookup-retain_kept now nonce e [] h l = absurd (ground arith)
lookup-retain_kept now nonce e ((j, w) ∷ d) h l = ground (arith, lookup-retain_kept now nonce e d)

-- Before the time, a spent nonce is not granted again.
pub Spent-refused :
    (nonce : Bytes) (until now : ℕ) (s : BoundedNonceStore)
    → now < until
    → Spent nonce until s
    → (reserve s nonce now).0 ≡ false
unfolding reserve
Spent-refused nonce until now s l p =
    rw (lookup-retain_kept now nonce p.entry s.values p.present (omega (arith, l, p.kept)), reserve)
      refl

reserve-lookup :
    (nonce other : Bytes) (now : ℕ) (e : Entry) (s : BoundedNonceStore)
    → lookup nonce s.values ≡ some e
    → now < e.expiry
    → lookup nonce (reserve s other now).1.values ≡ some e
unfolding reserve
reserve-lookup nonce other now e s h l =
    let kept = lookup-retain_kept now nonce e s.values h l in
    elim (Bool-cases (bytes_beq nonce other)) [
      | inl same ↦ let eq = (bytes_beq_iff nonce other).0 same in ground (arith, eq, kept)
      | inr ne ↦
          let differ : nonce ≢ other =
            λ p. absurd (ground (arith, (bytes_beq_iff nonce other).1 p)) in
          let inserted =
            lookup-insert_ne nonce other
              (record {
                state = NonceState.reserved;
                expiry = saturating_add now s.retention_seconds;
              })
              (retain (λ n x. ltb now x.expiry) s.values) differ in
          ground (arith, inserted, kept)
    ]

release-lookup :
    (nonce other : Bytes) (e : Entry) (s : BoundedNonceStore)
    → lookup nonce s.values ≡ some e
    → e.state ≡ NonceState.committed
    → lookup nonce (release s other).values ≡ some e
unfolding release
release-lookup nonce other e s h f = elim (Bool-cases (bytes_beq nonce other)) [
  | inl same ↦ let eq = (bytes_beq_iff nonce other).0 same in ground (arith, eq)
  | inr ne ↦
      let differ : nonce ≢ other = λ p. absurd (ground (arith, (bytes_beq_iff nonce other).1 p)) in
      ground (arith, lookup-erase_ne nonce other s.values differ)
]

pub reserve-Spent :
    (nonce other : Bytes) (until now : ℕ) (s : BoundedNonceStore)
    → now < until
    → Spent nonce until s
    → Spent nonce until (reserve s other now).1
reserve-Spent nonce other until now s l p = record {
  entry = p.entry;
  present = reserve-lookup nonce other now p.entry s p.present (omega (arith, l, p.kept));
  kept = p.kept;
  final = p.final;
}

pub release-Spent :
    (nonce other : Bytes) (until : ℕ) (s : BoundedNonceStore)
    → Spent nonce until s
    → Spent nonce until (release s other)
release-Spent nonce other until s p = record {
  entry = p.entry;
  present = release-lookup nonce other p.entry s p.present p.final;
  kept = p.kept;
  final = p.final;
}

pub commit-Spent :
    (nonce other : Bytes) (until : ℕ) (s : BoundedNonceStore)
    → Spent nonce until s
    → Spent nonce until (commit s other)
unfolding commit
commit-Spent nonce other until s p = elim (Bool-cases (bytes_beq nonce other)) [
  | inl same ↦
      let eq = (bytes_beq_iff nonce other).0 same in
      let there : lookup other s.values ≡ some p.entry = ground (arith, eq, p.present) in
      let again : Entry = record { state = NonceState.committed; expiry = p.entry.expiry } in
      record {
        entry = again;
        present = rw (there, eq) (lookup-insert_self other again s.values);
        kept = p.kept;
        final = refl;
      }
  | inr ne ↦
      let differ : nonce ≢ other = λ q. absurd (ground (arith, (bytes_beq_iff nonce other).1 q)) in
      elim (Option-cases (lookup other s.values)) [
        | inl absent ↦ record {
          entry = p.entry;
          present = rw absent p.present;
          kept = p.kept;
          final = p.final;
        }
        | inr (e, there) ↦ record {
          entry = p.entry;
          present = rw there (
              lookup-insert_ne nonce other (record e { state = NonceState.committed }) s.values
                differ
              ∙ p.present);
          kept = p.kept;
          final = p.final;
        }
      ]
]

granted-lookup :
    (nonce : Bytes) (now : ℕ) (s : BoundedNonceStore)
    → (reserve s nonce now).0 ≡ true
    → lookup nonce (reserve s nonce now).1.values
      ≡ some
          (record { state = NonceState.reserved; expiry = saturating_add now s.retention_seconds })
unfolding reserve
granted-lookup nonce now s h = ground (
  arith,
  lookup-insert_self nonce
      (record { state = NonceState.reserved; expiry = saturating_add now s.retention_seconds })
      (retain (λ n x. ltb now x.expiry) s.values),
)

-- What is granted and committed is spent for the retention time.
pub commit-reserve :
    (nonce : Bytes) (now : ℕ) (s : BoundedNonceStore)
    → (reserve s nonce now).0 ≡ true
    → Spent nonce (saturating_add now s.retention_seconds) (commit (reserve s nonce now).1 nonce)
unfolding commit
commit-reserve nonce now s h =
    let again : Entry = record {
      state = NonceState.committed;
      expiry = saturating_add now s.retention_seconds;
    } in
    record {
      entry = again;
      present =
          rw (granted-lookup nonce now s h)
            (lookup-insert_self nonce again (reserve s nonce now).1.values);
      kept = omega arith;
      final = refl;
    }

-- The capacity and the retention time never change, and no store holds more than its capacity.
pub reserve-bounded :
    (nonce : Bytes) (now : ℕ) (s : BoundedNonceStore)
    → length s.values ≤ s.max_entries
    → (length (reserve s nonce now).1.values ≤ s.max_entries)
      × ((reserve s nonce now).1.max_entries ≡ s.max_entries)
      × ((reserve s nonce now).1.retention_seconds ≡ s.retention_seconds)
unfolding reserve
reserve-bounded nonce now s h =
    let kept = length-retain-le (λ n x. ltb now x.expiry) s.values in
    let added =
      length-insert-le nonce
        (record { state = NonceState.reserved; expiry = saturating_add now s.retention_seconds })
        (retain (λ n x. ltb now x.expiry) s.values) in
    ground (arith, kept, added)
