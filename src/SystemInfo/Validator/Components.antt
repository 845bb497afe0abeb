-- ===== src/SystemInfo/Validator/Components.antt =====
-- What `validateComponents` accepts.
use ces_importer.Base.{
  String, ◌==◌, ◌≡◌, refl, ◌↔◌, ◌≢◌, Option, none, some, List, [], ◌∷◌, Error, join, All, arith,
  if◌then◌else◌,
}
use ces_importer.Base.Dict
use ces_importer.Base.Dict.{Dict}
use ces_importer.Migration.Types.{Component, SystemInfo}
use ces_importer.SystemInfo.Validator.{
  component_at, index_components, validate_component, validate_components_loop, validate_components,
}

-- The component is found under its name, which is not empty, with its version.
abbrev pub IsInstalled : Dict Component → Component → Type 0
IsInstalled m c =
    let found = component_at c.name m in (found.name ≢ "") × (found.version ≡ c.version)

validate_component-eq-none :
    (m : Dict Component) (c : Component) (r : Option Error)
    → (validate_component m c r ≡ none) ↔ ((r ≡ none) × IsInstalled m c)
unfolding validate_component join
validate_component-eq-none m c r = ground arith

loop-eq-none :
    (m : Dict Component) (cs : List Component) (r : Option Error)
    → (validate_components_loop m cs r ≡ none) ↔ ((r ≡ none) × All (IsInstalled m) cs)
unfolding validate_components_loop
loop-eq-none m [] r = ground arith
loop-eq-none m (c ∷ cs) r =
    ground (arith, loop-eq-none m cs (validate_component m c r), validate_component-eq-none m c r)

-- The last component of the list with the name.
abbrev pub installed : String → List Component → Option Component
installed n [] = none
installed n (c ∷ cs) = elim (installed n cs) [
  | some later ↦ some later
  | none ↦ if c.name == n then some c else none
]

lookup-index_components :
    (n : String) (cs : List Component) (m : Dict Component)
    → Dict.lookup n (index_components cs m)
      ≡ elim (installed n cs) [ some c ↦ some c | none ↦ Dict.lookup n m ]
unfolding index_components
lookup-index_components n [] m = refl
lookup-index_components n (c ∷ cs) m =
    ground (
      arith,
      lookup-index_components n cs (Dict.insert c.name c m),
      Dict.lookup-insert n c.name c m,
    )

abbrev HasName : String → Option Component → Type 0
HasName n none = Unit
HasName n (some c) = c.name ≡ n

-- A component that the list holds under a name carries that name.
installed-HasName : (n : String) (cs : List Component) → HasName n (installed n cs)
installed-HasName n [] = tt
installed-HasName n (c ∷ cs) = ground (arith, installed-HasName n cs)

-- The component has a name, and the list holds it with its version.
abbrev pub IsPresent : List Component → Component → Type 0
IsPresent cs c =
    (c.name ≢ "")
    × (elim (installed c.name cs) [ none ↦ none | some found ↦ some found.version ]
        ≡ some c.version)

IsInstalled-iff-IsPresent :
    (cs : List Component) (c : Component) → IsInstalled (index_components cs []) c ↔ IsPresent cs c
unfolding component_at Dict.lookup
IsInstalled-iff-IsPresent cs c =
    ground (arith, lookup-index_components c.name cs [], installed-HasName c.name cs)

All-IsPresent :
    (cs ds : List Component) → All (IsInstalled (index_components cs [])) ds ↔ All (IsPresent cs) ds
All-IsPresent cs [] = (λ h. h, λ h. h)
All-IsPresent cs (d ∷ ds) = ground (arith, All-IsPresent cs ds, IsInstalled-iff-IsPresent cs d)

-- `validateComponents` returns nil exactly when each component of the exporting system has a name that is
-- not empty and the last component of that name on the importing system has the same version.
pub validate_components-eq-none :
    (im_info ex_info : SystemInfo)
    → (validate_components im_info ex_info ≡ none)
      ↔ All (IsPresent im_info.components) ex_info.components
unfolding validate_components
validate_components-eq-none im_info ex_info = ground (
  arith,
  loop-eq-none (index_components im_info.components []) ex_info.components none,
  All-IsPresent im_info.components ex_info.components,
)
