-- ===== src/Catalog.antt =====
-- app/products/catalog/: when the catalogue asks its platforms for more.
mod Stop
mod Budget
mod Coverage
mod Tests
