-- ===== src/Proxy/Process/Fine/Once.antt =====
-- Where each entry is: registered, carried by a thread, signalled, or gone. The moves of an entry from one of
-- these to another keep it in one place.
use capo_shell_mcp.Prelude.{
  ℕ, suc, ◌<◌, ◌≡◌, ◌≢◌, inl, inr, String, Option, some, none, List, [], ◌∷◌, In, Map, lookup,
  insert, delete, lookup-insert, lookup-delete, eq_iff, eqb, eqb_iff, if◌then◌else◌, arith,
}

-- No number occurs twice.
abbrev pub Once : List ℕ → Type 0
Once [] = Unit
Once (x ∷ xs) = (¬ In x xs) × Once xs

-- `carried j` is the entry that the thread `j` holds alone: on its way into the map or out of it.
pub record IsOnce (entries : Map ℕ) (next : ℕ) (signalled : List ℕ) (carried : ℕ → Option ℕ)
    : Type 0 where
  pub registered_below : (k : String) (e : ℕ) → lookup k entries ≡ some e → e < next
  pub registered_once :
      (j k : String) (e : ℕ) → lookup j entries ≡ some e → lookup k entries ≡ some e → j ≡ k
  pub carried_below : (i e : ℕ) → carried i ≡ some e → e < next
  pub carried_once : (i j e : ℕ) → carried i ≡ some e → carried j ≡ some e → i ≡ j
  pub carried_apart : (i e : ℕ) (k : String) → carried i ≡ some e → lookup k entries ≢ some e
  pub signalled_below : (e : ℕ) → In e signalled → e < next
  pub signalled_apart : (e : ℕ) (k : String) → In e signalled → lookup k entries ≢ some e
  pub signalled_free : (e i : ℕ) → In e signalled → carried i ≢ some e
  pub signalled_once : Once signalled

abbrev pub Sets : (ℕ → Option ℕ) → ℕ → Option ℕ → (ℕ → Option ℕ) → Type 0
Sets c i v c' = (j : ℕ) → c' j ≡ (if eqb i j then v else c j)

pub IsOnce-empty : IsOnce [] 0 [] (λ _. none)
unfolding lookup
IsOnce-empty = record {
  registered_below = λ k e h. cc;
  registered_once = λ j k e h l. cc;
  carried_below = λ i e h. cc;
  carried_once = λ i j e h l. cc;
  carried_apart = λ i e k h. cc;
  signalled_below = λ e h. absurd h;
  signalled_apart = λ e k h. absurd h;
  signalled_free = λ e i h. absurd h;
  signalled_once = tt;
}

module _ {entries : Map ℕ} {next : ℕ} {signalled : List ℕ} {c : ℕ → Option ℕ}
    (o : IsOnce entries next signalled c) where
  pub drops-IsOnce : (key : String) → IsOnce (delete key entries) next signalled c
  drops-IsOnce key = record {
    registered_below = λ k e h. ground (arith, lookup-delete key k entries, o.registered_below k e);
    registered_once = λ j k e h l.
        ground (
          arith,
          lookup-delete key k entries,
          lookup-delete key j entries,
          o.registered_once j k e,
        );
    carried_below = o.carried_below;
    carried_once = o.carried_once;
    carried_apart =
        λ i e k h l. ground (arith, lookup-delete key k entries, o.carried_apart i e k h);
    signalled_below = o.signalled_below;
    signalled_apart =
        λ e k h l. ground (arith, lookup-delete key k entries, o.signalled_apart e k h);
    signalled_free = o.signalled_free;
    signalled_once = o.signalled_once;
  }

  module _ (i : ℕ) (c' : ℕ → Option ℕ) where
    pub keeps-IsOnce : Sets c i (c i) c' → IsOnce entries next signalled c'
    keeps-IsOnce s = record {
      registered_below = o.registered_below;
      registered_once = o.registered_once;
      carried_below =
          λ j e h. ground (arith, s j, eqb_iff i j, o.carried_below j e, o.carried_below i e);
      carried_once = λ j k e h l. ground (
        arith,
        s j,
        s k,
        eqb_iff i j,
        eqb_iff i k,
        o.carried_once j k e,
        o.carried_once i k e,
        o.carried_once j i e,
      );
      carried_apart =
          λ j e k h. ground (arith, s j, eqb_iff i j, o.carried_apart j e k, o.carried_apart i e k);
      signalled_below = o.signalled_below;
      signalled_apart = o.signalled_apart;
      signalled_free = λ e j m h.
          ground (arith, s j, eqb_iff i j, o.signalled_free e j m, o.signalled_free e i m);
      signalled_once = o.signalled_once;
    }

    pub creates-IsOnce : Sets c i (some next) c' → IsOnce entries (suc next) signalled c'
    creates-IsOnce s = record {
      registered_below = λ k e h. ground (arith, o.registered_below k e h);
      registered_once = o.registered_once;
      carried_below = λ j e h. ground (arith, s j, o.carried_below j e);
      carried_once = λ j k e h l. ground (
        arith,
        s j,
        s k,
        eqb_iff i j,
        eqb_iff i k,
        o.carried_once j k e,
        o.carried_below j e,
        o.carried_below k e,
      );
      carried_apart =
          λ j e k h l. ground (arith, s j, o.carried_apart j e k, o.registered_below k e l);
      signalled_below = λ e h. ground (arith, o.signalled_below e h);
      signalled_apart = o.signalled_apart;
      signalled_free =
          λ e j m h. ground (arith, s j, o.signalled_free e j m, o.signalled_below e m);
      signalled_once = o.signalled_once;
    }

    pub registers-IsOnce :
        (key : String) (e : ℕ)
        → c i ≡ some e
        → Sets c i none c'
        → IsOnce (insert key e entries) next signalled c'
    registers-IsOnce key e h s = record {
      registered_below = λ k f l.
          ground
            (arith, lookup-insert key k e entries, o.registered_below k f, o.carried_below i e h);
      registered_once = λ j k f l m. ground (
        arith,
        lookup-insert key k e entries,
        lookup-insert key j e entries,
        o.registered_once j k f,
        o.carried_apart i f j,
        o.carried_apart i f k,
        eq_iff key j,
        eq_iff key k,
      );
      carried_below = λ j f l. ground (arith, s j, o.carried_below j f);
      carried_once = λ j k f l m. ground (arith, s j, s k, o.carried_once j k f);
      carried_apart = λ j f k l m. ground (
        arith,
        s j,
        lookup-insert key k e entries,
        o.carried_apart j f k,
        o.carried_once i j f,
        eqb_iff i j,
      );
      signalled_below = o.signalled_below;
      signalled_apart = λ f k l m.
          ground
            (arith, lookup-insert key k e entries, o.signalled_apart f k l, o.signalled_free f i l);
      signalled_free = λ f j m l. ground (arith, s j, o.signalled_free f j m);
      signalled_once = o.signalled_once;
    }

    pub takes-IsOnce :
        (key : String) (e : ℕ)
        → lookup key entries ≡ some e
        → Sets c i (some e) c'
        → IsOnce (delete key entries) next signalled c'
    takes-IsOnce key e h s = record {
      registered_below =
          λ k f l. ground (arith, lookup-delete key k entries, o.registered_below k f);
      registered_once = λ j k f l m. ground (
        arith,
        lookup-delete key k entries,
        lookup-delete key j entries,
        o.registered_once j k f,
      );
      carried_below = λ j f l. ground (arith, s j, o.carried_below j f, o.registered_below key e h);
      carried_once = λ j k f l m. ground (
        arith,
        s j,
        s k,
        eqb_iff i j,
        eqb_iff i k,
        o.carried_once j k f,
        o.carried_apart j f key,
        o.carried_apart k f key,
      );
      carried_apart = λ j f k l m. ground (
        arith,
        s j,
        lookup-delete key k entries,
        o.carried_apart j f k,
        o.registered_once key k f,
        eq_iff key k,
      );
      signalled_below = o.signalled_below;
      signalled_apart =
          λ f k l m. ground (arith, lookup-delete key k entries, o.signalled_apart f k l);
      signalled_free =
          λ f j m l. ground (arith, s j, o.signalled_free f j m, o.signalled_apart f key m);
      signalled_once = o.signalled_once;
    }

    pub signals-IsOnce :
        (e : ℕ) → c i ≡ some e → Sets c i none c' → IsOnce entries next (e ∷ signalled) c'
    signals-IsOnce e h s = record {
      registered_below = o.registered_below;
      registered_once = o.registered_once;
      carried_below = λ j f l. ground (arith, s j, o.carried_below j f);
      carried_once = λ j k f l m. ground (arith, s j, s k, o.carried_once j k f);
      carried_apart = λ j f k l. ground (arith, s j, o.carried_apart j f k);
      signalled_below = λ f m. elim m [
        | inl q ↦ ground (arith, o.carried_below i e h)
        | inr r ↦ o.signalled_below f r
      ];
      signalled_apart = λ f k m. elim m [
        | inl q ↦ rw q (o.carried_apart i e k h)
        | inr r ↦ o.signalled_apart f k r
      ];
      signalled_free = λ f j m l. elim m [
        | inl q ↦ ground (arith, s j, eqb_iff i j, o.carried_once i j f)
        | inr r ↦ ground (arith, s j, o.signalled_free f j r)
      ];
      signalled_once = (λ m. o.signalled_free e i m h, o.signalled_once);
    }
