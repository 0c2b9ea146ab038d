-- ===== src/Catalog.antt =====
-- backend/app/domain/catalog: products, variants, prices, translations, categories and media.
pub mod Models
pub mod Labels
pub mod Reads
pub mod Storefront
pub mod Visible
pub mod Store
pub mod Admin
pub mod NewProduct
pub mod Categories
pub mod AdminViews
pub mod Stocked
