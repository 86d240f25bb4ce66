-- ===== src/Stock/Repositories.antt =====
-- The repositories of src/modules/stock/repositories: one Prisma call or two each.
pub mod Catalogue
pub mod Shops
pub mod ShopStocks
pub mod Tasks
