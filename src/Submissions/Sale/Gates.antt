-- ===== src/Submissions/Sale/Gates.antt =====
-- What a sale has passed when it is priced (backend/src/submissions/submissions.service.ts).
use vfw.Prelude.{ℕ, ◌≡◌, true, false, ◌&&◌, Option, some, arith, length, []}
use vfw.Decimal.{Decimals, hundred, zero_amount}
use vfw.Pricing.{pct}
use vfw.Store.Table.{find}
use vfw.Store.Call.{ok}
use vfw.Submissions.Sale.{
  Catalogue, SaleDto, ResolvedSale, FixedTax, Event, Package, PackagePrice, given, is_pct,
  addons_in, sellable, price_in, resolve_sale,
}

module _ ⦃d : Decimals⦄ where
  open d use {Decimal, gt}

  -- A sale that is resolved belongs to an event and a package of the same brand, is priced in the
  -- event's city and in that currency; every add-on that it names is known and sold with the brand in
  -- that currency; a discount in percent is at most 100; and the rep is known.
  resolve_sale_gates :
      (cat : Catalogue Decimal) (dto : SaleDto Decimal) (rep_id : ℕ)
      (tax : Option (FixedTax Decimal)) (event : Event) (pkg : Package Decimal)
      (price : PackagePrice Decimal) (sale : ResolvedSale Decimal)
      → find (λ e. e.id) dto.event_id cat.events ≡ some event
      → find (λ p. p.id) dto.package_id cat.packages ≡ some pkg
      → price_in event.city_id pkg.prices ≡ some price
      → resolve_sale cat dto rep_id tax ≡ ok sale
      → (pkg.brand ≡ event.brand)
        × (sale.currency ≡ price.currency)
        × (length (addons_in (given dto.addon_ids []) cat.addons) ≡ length (given dto.addon_ids []))
        × (sellable event.brand price.currency (addons_in (given dto.addon_ids []) cat.addons)
            ≡ true)
        × (is_pct (given dto.discount_type pct) && gt (given dto.discount_value zero_amount) hundred
            ≡ false)
        × (find (λ r. r.id) rep_id cat.reps ≡ some sale.rep)
  unfolding resolve_sale
  resolve_sale_gates cat dto rep_id tax event pkg price sale at_event at_pkg at_price done =
      ground arith
