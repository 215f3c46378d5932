-- ===== src/Wrapper/Finalize/Says.antt =====
-- What the lists of pushed and of failed repositories say of one name.
use tatara_claude_code_wrapp.Common.{◌≡◌, refl, Bool, false, ◌||◌, String, arith, contains}
use tatara_claude_code_wrapp.Wrapper.Repos.{RepoLists}

-- Whether a name is in the pushed list, and in the failed one.
pub record Says : Type 0 where
  pub pushed : Bool
  pub failed : Bool

abbrev pub says : String → RepoLists → Says
says n l = record { pushed = contains n l.pushed; failed = contains n l.failed }

abbrev pub silent : Says
silent = record { pushed = false; failed = false }

abbrev pub also : Says → Says → Says
also x y = record { pushed = x.pushed || y.pushed; failed = x.failed || y.failed }

-- A name stays known, and one that is not pushed stays failed, or not.
pub record Keeps (x y : Says) : Type 0 where
  pub known : (y.pushed || y.failed) ≡ (x.pushed || x.failed)
  pub unpushed : x.pushed ≡ false → (y.pushed ≡ false) × (y.failed ≡ x.failed)

pub Keeps-refl : (x : Says) → Keeps x x
Keeps-refl x = record { known = refl; unpushed = λ e. (e, refl) }

pub same_says : (z : Says) {x y : Says} → y ≡ x → Keeps (also z x) (also z y)
same_says z e = rw e (Keeps-refl _)

-- The turn's lists are with the app now.
pub handed_on : {x y : Says} → Keeps x y → Keeps x (also y silent)
handed_on k = record {
  known = ground (arith, k.known);
  unpushed = λ e. let u = k.unpushed e in ground arith;
}

-- `rest` is what the turns behind say, and `x` what those before say.
pub front :
    (h h' x x' rest : Says)
    → Keeps (also h x) (also h' x')
    → Keeps (also h (also x rest)) (also h' (also x' rest))
front h h' x x' rest k = record {
  known = ground (arith, k.known);
  unpushed = λ e. let u = k.unpushed (ground arith) in ground arith;
}

pub behind :
    (h h' y y' x : Says)
    → Keeps (also h y) (also h' y')
    → Keeps (also h (also x y)) (also h' (also x y'))
behind h h' y y' x k = record {
  known = ground (arith, k.known);
  unpushed = λ e. let u = k.unpushed (ground arith) in ground arith;
}

pub begun : (h x y : Says) → Keeps (also (also h y) x) (also h (also x y))
begun h x y = record { known = ground arith; unpushed = λ e. ground arith }

pub quiet : (x y : Says) → Keeps x y → Keeps (also x silent) y
quiet x y k = record {
  known = ground (arith, k.known);
  unpushed = λ e. let u = k.unpushed (ground arith) in ground arith;
}

pub chain :
    (p e es q r : Says) → Keeps (also p e) q → Keeps (also q es) r → Keeps (also p (also e es)) r
chain p e es q r k l = record {
  known = ground (arith, k.known, l.known);
  unpushed =
      λ f. let u = k.unpushed (ground arith) in let v = l.unpushed (ground arith) in ground arith;
}
