-- ===== src/Submissions/Sale.antt =====
-- backend/src/submissions/submissions.service.ts: `resolveSale`, which validates what was sold
-- against the catalogue and prices it.
pub mod Gates
use Prim.Native.String.{String}
use vfw.Prelude.{
  ℕ, ◌==◌, ◌&&◌, ◌||◌, Bool, true, false, not, Option, none, some, List, [], ◌∷◌, map, length,
  if◌then◌else◌,
}
use vfw.Prelude.Words.{trim}
use vfw.Decimal.{Decimals, zero_amount, hundred}
use vfw.Pricing.{
  Currency, usd, cad, gbp, eur, jpy, DiscountType, pct, amt, AddonLine, PricingInput, PricingResult,
  compute,
}
use vfw.Acl.{includes}
use vfw.Store.{ContactDetails, Text}
use vfw.Store.Table.{find, filter}
use vfw.Store.Call.{Result, ok, err, bad_request, not_found}

pub record Event : Type 0 where
  pub id : ℕ
  pub brand : ℕ
  pub city_id : ℕ
  pub city : Text

pub record TaxProfile (D : Type 0) : Type 0 where
  pub code : ℕ
  pub rate : D

pub record PackagePrice (D : Type 0) : Type 0 where
  pub city_id : ℕ
  pub price : D
  pub currency : Currency

pub record Package (D : Type 0) : Type 0 where
  pub id : ℕ
  pub brand : ℕ
  pub tax : TaxProfile D
  pub prices : List (PackagePrice D)

pub record Addon (D : Type 0) : Type 0 where
  pub id : ℕ
  pub for_brands : List ℕ
  pub price : D
  pub currency : Currency

-- The columns of `model User` that price a sale.
pub record Rep (D : Type 0) : Type 0 where
  pub id : ℕ
  pub earns_commission : Bool
  pub commission_pct : D
  pub department : Option String

-- The tables that `resolveSale` reads.
pub record Catalogue (D : Type 0) : Type 0 where
  pub events : List Event
  pub packages : List (Package D)
  pub addons : List (Addon D)
  pub tax_profiles : List (TaxProfile D)
  pub reps : List (Rep D)

-- `CreateSubmissionDto`, less what no modelled code reads.
pub record SaleDto (D : Type 0) : Type 0 where
  pub brand : String
  pub details : ContactDetails
  pub event_id : ℕ
  pub package_id : ℕ
  pub addon_ids : Option (List ℕ)
  pub discount_type : Option DiscountType
  pub discount_value : Option D
  pub tax_code : Option ℕ
  pub addon_tax_code : Option ℕ
  pub package_name_override : Option Text
  pub package_looks_override : Option ℕ
  pub package_blurb_override : Option Text
  pub package_price_override : Option D
  pub deposit : Option D
  pub payment_method : Option String

-- What `resolveSale` hands on.
pub record ResolvedSale (D : Type 0) : Type 0 where
  pub event : Event
  pub currency : Currency
  pub discount_type : DiscountType
  pub rep : Rep D
  pub priced : PricingResult D
  pub addon_tax : Option (TaxProfile D)
  pub package_customized : Bool

-- The tax that a sale was created with: the profile, and the add-ons' own one.
abbrev pub FixedTax : Type 0 → Type 0
FixedTax D = record { rate : D; addon : Option (TaxProfile D) }

unfoldable pub currency_index : Currency → ℕ
currency_index usd = 0
currency_index cad = 1
currency_index gbp = 2
currency_index eur = 3
currency_index jpy = 4

-- `a ?? b`
abbrev pub given {ℓ} : {A : Type ℓ} → Option A → A → A
given none b = b
given (some a) b = a

abbrev pub is_given {ℓ} : {A : Type ℓ} → Option A → Bool
is_given none = false
is_given (some _) = true

abbrev pub is_empty {ℓ} : {A : Type ℓ} → List A → Bool
is_empty [] = true
is_empty (_ ∷ _) = false

-- `Boolean(text?.trim())`
unfoldable pub has_text : Option Text → Bool
unfolding trim
has_text none = false
has_text (some t) = not (is_empty (trim t))

abbrev pub or_bad : {A : Type 0} → Option A → Result A
or_bad none = err bad_request
or_bad (some a) = ok a

abbrev pub check : Bool → Result (Unit {0})
check true = ok tt
check false = err bad_request

-- A chain of checks that throw.
abbrev pub and_then : {A B : Type 0} → Result A → (A → Result B) → Result B
and_then (ok a) f = f a
and_then (err e) f = err e

-- `pkg.prices.find((p) => p.cityId === event.cityId)`
unfoldable pub price_in : {D : Type 0} → ℕ → List (PackagePrice D) → Option (PackagePrice D)
unfolding find
price_in city_id = find (λ p. p.city_id) city_id

-- `addon.findMany({ where: { id: { in: ids } } })`: each row once, whatever the order of the ids.
unfoldable pub addons_in : {D : Type 0} → List ℕ → List (Addon D) → List (Addon D)
unfolding filter
addons_in ids = filter (λ a. includes (λ n. n) ids a.id)

-- The loop over the add-ons: each is sold with the brand, in the currency of the sale.
unfoldable pub sellable : {D : Type 0} → ℕ → Currency → List (Addon D) → Bool
unfolding currency_index
sellable brand currency [] = true
sellable brand currency (a ∷ rest) =
    includes (λ n. n) a.for_brands brand
    && currency_index a.currency == currency_index currency
    && sellable brand currency rest

-- A tax code that was sent has to exist.
unfoldable pub pick_tax :
    {D : Type 0} → Option ℕ → List (TaxProfile D) → Result (Option (TaxProfile D))
unfolding find
pick_tax none profiles = ok none
pick_tax (some code) profiles = elim (find (λ t. t.code) code profiles) [
  | none ↦ err bad_request
  | some t ↦ ok (some t)
]

abbrev pub is_pct : DiscountType → Bool
is_pct pct = true
is_pct amt = false

module _ ⦃d : Decimals⦄ where
  open d use {Decimal, gt}

  abbrev pub addon_line : Addon Decimal → AddonLine Decimal
  addon_line a = record { addon_id = a.id; qty = 1; unit_price = a.price; currency = a.currency }

  -- The call of the pricing engine at the end of `resolveSale`. No payments are passed.
  abbrev pub sale_input :
      SaleDto Decimal
      → Rep Decimal
      → Decimal
      → List (Addon Decimal)
      → DiscountType
      → Decimal
      → Option (TaxProfile Decimal)
      → PricingInput Decimal
  sale_input dto rep price addons discount_type rate addon_tax = record {
    package_price = given dto.package_price_override price;
    addons = map addon_line addons;
    discount_type = discount_type;
    discount_value = given dto.discount_value zero_amount;
    tax_rate = rate;
    addon_tax_rate = elim addon_tax [ none ↦ none | some t ↦ some t.rate ];
    commission_pct = if rep.earns_commission then rep.commission_pct else zero_amount;
    deposit = some (given dto.deposit zero_amount);
    payments = none;
  }

  abbrev pub customized : SaleDto Decimal → Bool
  customized dto =
      has_text dto.package_name_override
      || is_given dto.package_looks_override
      || has_text dto.package_blurb_override
      || is_given dto.package_price_override

  -- The taxes of the edit path, where the sale keeps its own and the codes that are sent go unread.
  abbrev pub sale_tax :
      Catalogue Decimal
      → SaleDto Decimal
      → Package Decimal
      → Option (FixedTax Decimal)
      → Result (FixedTax Decimal)
  sale_tax cat dto pkg (some fixed) = ok fixed
  sale_tax cat dto pkg none = and_then (pick_tax dto.tax_code cat.tax_profiles) λ picked.
      and_then (pick_tax dto.addon_tax_code cat.tax_profiles) λ addon.
        ok (record { rate = elim picked [ none ↦ pkg.tax.rate | some t ↦ t.rate ]; addon = addon })

  -- `resolveSale`
  unfoldable pub resolve_sale :
      Catalogue Decimal
      → SaleDto Decimal
      → ℕ
      → Option (FixedTax Decimal)
      → Result (ResolvedSale Decimal)
  unfolding find price_in addons_in sellable pick_tax has_text
  resolve_sale cat dto rep_id fixed_tax =
      and_then (or_bad (find (λ e. e.id) dto.event_id cat.events)) λ event.
        and_then (or_bad (find (λ p. p.id) dto.package_id cat.packages)) λ pkg.
          and_then (check (pkg.brand == event.brand)) λ _.
            and_then (or_bad (price_in event.city_id pkg.prices)) λ price.
              let ids = given dto.addon_ids [] in
              let addons = addons_in ids cat.addons in
              and_then (check (length addons == length ids)) λ _.
                and_then (check (sellable event.brand price.currency addons)) λ _.
                  let discount_type = given dto.discount_type pct in
                  and_then
                    (check (
                      not (
                        is_pct discount_type && gt (given dto.discount_value zero_amount) hundred)))
                    λ _.
                      and_then
                        (elim (find (λ r. r.id) rep_id cat.reps) [
                          | none ↦ err not_found
                          | some r ↦ ok r
                        ])
                        λ rep. and_then (sale_tax cat dto pkg fixed_tax) λ tax.
                          let addon_tax = if is_empty addons then none else tax.addon in
                          ok (record {
                            event = event;
                            currency = price.currency;
                            discount_type = discount_type;
                            rep = rep;
                            priced = compute (
                                sale_input dto rep price.price addons discount_type tax.rate
                                  addon_tax);
                            addon_tax = addon_tax;
                            package_customized = customized dto;
                          })
